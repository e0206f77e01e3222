-- ===== src/FileExt/Laws.antt =====
-- A file's type from its suffix and back, whatever the order of the hash table's buckets.
use Prim.Native.String.{String}
use text.Mathlib.Text.{◌==◌ as str_eq}
use text.Mathlib.TextEquality.{eq_iff}
use mathlib.Core.List.{Mem, Mem-prop, Perm, mem-cons, not-mem-nil, mem-cons_self, mem-cons_of_mem}
use mathlib.Core.List.Perm
use mathlib.Core.Logic.Or
use bats_protocol_api.Prelude.{
  ◌≡◌, refl, ◌≢◌, sym, ap, ◌∙◌, inl, inr, Bool, true, false, ◌&&◌, ◌||◌, List, [], ◌∷◌, ◌++◌, ◌==◌,
  arith, some, Bool-cases, ==_iff, get_elem?, map,
}
use bats_protocol_api.FileExt.{
  FileExtension, count, index, Entry, file_ext_table, find, file_ext_to_string,
  file_ext_from_string,
}

all_entries : (Entry → Bool) → List Entry → Bool
all_entries p [] = true
all_entries p (e ∷ l) = p e && all_entries p l

all_entries-mem :
    (p : Entry → Bool) (l : List Entry)
    → all_entries p l ≡ true
    → (e : Entry) → Mem e l
    → p e ≡ true
unfolding all_entries
all_entries-mem p [] h e m = absurd (not-mem-nil m)
all_entries-mem p (x ∷ l) h e m =
    Or.elim (hlevel) (mem-cons.0 m) (λ q. rw q (ground arith))
      (all_entries-mem p l (ground arith) e)

any_entry : (Entry → Bool) → List Entry → Bool
any_entry p [] = false
any_entry p (e ∷ l) = p e || any_entry p l

any_entry-mem :
    (p : Entry → Bool) (l : List Entry)
    → any_entry p l ≡ true
    → (e : Entry) × Mem e l × (p e ≡ true)
unfolding any_entry
any_entry-mem p [] h = cc
any_entry-mem p (x ∷ l) h = elim (Bool-cases (p x)) [
  | inl q ↦ (x, mem-cons_self, q)
  | inr q ↦
      let rest = any_entry-mem p l (ground arith) in (rest.0, mem-cons_of_mem _ rest.1, rest.2)
]

members : List FileExtension
unfolding file_ext_table
members = map (λ e. e.extension) file_ext_table ++ count ∷ []

index-members : (fe : FileExtension) → get_elem? members (index fe) ≡ some fe
unfolding members index
index-members count = refl
index-members _ = refl

index-injective : (x y : FileExtension) → index x ≡ index y → x ≡ y
index-injective x y h = cc (index-members x, index-members y, ap (get_elem? members) h)

-- In the source's own order.
from_to_table :
    (fe : FileExtension)
    → fe ≢ count
    → file_ext_from_string file_ext_table (file_ext_to_string file_ext_table fe) ≡ fe
unfolding file_ext_from_string file_ext_to_string file_ext_table index
from_to_table count h = absurd (h refl)
from_to_table _ h = refl

has_entry :
    (fe : FileExtension)
    → fe ≢ count
    → any_entry (λ e. index e.extension == index fe) file_ext_table ≡ true
unfolding any_entry file_ext_table index
has_entry count h = absurd (h refl)
has_entry _ h = refl

suffixes_agree :
    all_entries (λ e. str_eq e.suffix (find e.extension file_ext_table).suffix) file_ext_table
    ≡ true
unfolding all_entries file_ext_table find index
suffixes_agree = refl

extensions_agree :
    all_entries
      (λ e. index (file_ext_from_string file_ext_table e.suffix) == index e.extension)
      file_ext_table
    ≡ true
unfolding all_entries file_ext_table file_ext_from_string index
extensions_agree = refl

other_mem : {e x : Entry} {l : List Entry} → (e ≡ x → ⊥) → Mem e (x ∷ l) → Mem e l
other_mem h m = Or.elim Mem-prop (mem-cons.0 m) (λ q. absurd (h q)) (λ m'. m')

find_by :
    (l : List Entry) (fe : FileExtension) (s : String)
    → ((e : Entry) → Mem e l → index e.extension ≡ index fe → e.suffix ≡ s)
    → (e : Entry) → Mem e l
    → index e.extension ≡ index fe
    → (find fe l).suffix ≡ s
unfolding find
find_by [] fe s h e m q = absurd (not-mem-nil m)
find_by (x ∷ l) fe s h e m q = elim (Bool-cases (index x.extension == index fe)) [
  | inl hit ↦ rw hit (h x mem-cons_self ((==_iff _ _).0 hit))
  | inr miss ↦ rw miss (
      find_by l fe s (λ y n. h y (mem-cons_of_mem _ n)) e
        (other_mem
          (λ r. cc (ap (λ (y : Entry). index y.extension == index fe) r, (==_iff _ _).1 q, miss)) m)
        q)
]

from_by :
    (l : List Entry) (fe : FileExtension) (s : String)
    → ((e : Entry) → Mem e l → e.suffix ≡ s → e.extension ≡ fe)
    → (e : Entry) → Mem e l
    → e.suffix ≡ s
    → file_ext_from_string l s ≡ fe
unfolding file_ext_from_string
from_by [] fe s h e m q = absurd (not-mem-nil m)
from_by (x ∷ l) fe s h e m q = elim (Bool-cases (str_eq x.suffix s)) [
  | inl hit ↦ rw hit (h x mem-cons_self ((eq_iff _ _).0 hit))
  | inr miss ↦ rw miss (
      from_by l fe s (λ y n. h y (mem-cons_of_mem _ n)) e
        (other_mem (λ r. cc (ap (λ (y : Entry). str_eq y.suffix s) r, (eq_iff _ _).1 q, miss)) m) q)
]

module _ {table : List Entry} (shuffled : Perm table file_ext_table) (fe : FileExtension)
    (h : fe ≢ count) where
  suffix_of :
      (e : Entry)
      → Mem e table
      → index e.extension ≡ index fe
      → e.suffix ≡ (find fe file_ext_table).suffix
  suffix_of e m q =
      (eq_iff _ _).0
        (all_entries-mem _ file_ext_table suffixes_agree e ((Perm.mem_iff shuffled).0 m))
      ∙ ap (λ (x : FileExtension). (find x file_ext_table).suffix)
          (index-injective e.extension fe q)

  own_entry : (e : Entry) × Mem e table × (index e.extension ≡ index fe)
  own_entry =
      let it = any_entry-mem _ file_ext_table (has_entry fe h) in
      (it.0, (Perm.mem_iff shuffled).1 it.1, (==_iff _ _).0 it.2)

  to_string_shuffled : file_ext_to_string table fe ≡ (find fe file_ext_table).suffix
  unfolding file_ext_to_string
  to_string_shuffled = find_by table fe _ suffix_of own_entry.0 own_entry.1 own_entry.2

  extension_of :
      (e : Entry) → Mem e table → e.suffix ≡ (find fe file_ext_table).suffix → e.extension ≡ fe
  unfolding file_ext_to_string
  extension_of e m q =
      sym (
        index-injective _ e.extension (
          (==_iff _ _).0
            (all_entries-mem _ file_ext_table extensions_agree e ((Perm.mem_iff shuffled).0 m))))
      ∙ (ap (file_ext_from_string file_ext_table) q ∙ from_to_table fe h)

  -- In whatever order the hash table yields its entries, the lookup by a suffix returns the extension
  -- that the suffix was printed for, for every extension of the table.
  pub from_string-to_string : file_ext_from_string table (file_ext_to_string table fe) ≡ fe
  from_string-to_string = rw to_string_shuffled (
      from_by table fe _ extension_of own_entry.0 own_entry.1
        (suffix_of own_entry.0 own_entry.1 own_entry.2))
