-- ===== src/Test/Exchange.antt =====
-- The summary that a sender sends, as the receiver reads it.
use bats_protocol_api.Stream.{Platform, IperfStream}
use bats_protocol_api.Prelude.{
  ℕ, Bool, List, ◌∷◌, ◌≡◌, ◌==◌, false, [], refl, ◌+◌, ◌++◌, ◌%◌, ◌<◌, if◌then◌else◌, length, arith,
  true, drop, subst, sym, suc, length-append, ap, append_assoc, ◌∙◌, ◌*◌,
}
use bats_protocol_api.Test.Handlers.{match_streams, read_reports}
use bats_protocol_api.Prelude.Octets.{Octets, le_octets}
use bats_protocol_api.Prelude.Results.{ok}
use bats_protocol_api.Stream.Report.{finish_report, deserialize_report, u64_mod, serialize_report}
use bats_protocol_api.Test.Messages.{serialize_reports}
use bats_protocol_api.Stream.Report.Exchange.{
  read_le-serialize_report, deserialize_report-serialize_report,
}

length-serialize_report : {P : Platform} (s : IperfStream P) → length (serialize_report s) ≡ 32
unfolding serialize_report le_octets
length-serialize_report s = refl

module _ {P : Platform} where
  -- Streams with the same identifiers in the same order, no two of them equal.
  unfoldable pub Absent : ℕ → List (IperfStream P) → Type 0
  Absent n [] = Unit
  Absent n (s ∷ streams) = ((s.stream_identifier == n) ≡ false) × Absent n streams

  match_streams-Absent :
      (reliable : Bool) (time : ℕ → ℕ) (i n : ℕ) (from : Octets) (streams : List (IperfStream P))
      → Absent n streams
      → match_streams reliable time i n from streams ≡ ok (streams, from)
  unfolding match_streams Absent
  match_streams-Absent reliable time i n from [] a = refl
  match_streams-Absent reliable time i n from (s ∷ streams) a =
      (let r = match_streams-Absent reliable time (i + 1) n from streams a.1 in
        ground (arith, a.0, r))

  -- What a receiver's stream takes over from the report of the sender's.
  pub adopt : IperfStream P → IperfStream P → IperfStream P
  adopt s t = record t {
    sender_report = record t.sender_report {
      summary = record t.sender_report.summary {
        bytes = s.sender_report.summary.bytes;
        datagrams = s.sender_report.summary.datagrams;
        bitrate =
            P.floating.over
              (P.floating.of_nat (
                P.floating.to_nat
                  (P.floating.times s.sender_report.summary.bitrate (P.floating.of_nat 100))
                % u64_mod))
              (P.floating.literal 100 0);
      };
    };
    is_sum_received = true;
  }

  pub settle : Bool → ℕ → IperfStream P → IperfStream P → IperfStream P
  settle reliable now s t = if reliable then adopt s t else finish_report now (adopt s t)

  -- The receiver's streams from the i-th on, each behind the report of its sender.
  pub settle_all :
      Bool → (ℕ → ℕ) → ℕ → List (IperfStream P) → List (IperfStream P) → List (IperfStream P)
  settle_all reliable time i [] ts = ts
  settle_all reliable time i (s ∷ ss) [] = []
  settle_all reliable time i (s ∷ ss) (t ∷ ts) =
      settle reliable (time i) s t ∷ settle_all reliable time (i + 1) ss ts

  -- The receiver has at least the sender's streams, in their order, and no two have one identifier.
  pub data Paired : List (IperfStream P) → List (IperfStream P) → Type 0 where
    paired_nil : {ts : List (IperfStream P)} → Paired [] ts
    paired_cons :
        {s t : IperfStream P} {ss ts : List (IperfStream P)}
        → t.stream_identifier ≡ s.stream_identifier
        → s.stream_identifier < u64_mod
        → s.sender_report.summary.bytes < u64_mod
        → s.sender_report.summary.datagrams < u64_mod
        → Absent t.stream_identifier ts
        → Paired ss ts
        → Paired (s ∷ ss) (t ∷ ts)

  Clear : List (IperfStream P) → List (IperfStream P) → Type 0
  Clear pre [] = Unit
  Clear pre (t ∷ ts) = Absent t.stream_identifier pre × Clear pre ts

  settle-identifier :
      (reliable : Bool) (now : ℕ) (s t : IperfStream P)
      → (settle reliable now s t).stream_identifier ≡ t.stream_identifier
  unfolding settle adopt finish_report
  settle-identifier reliable now s t = ground arith

  Absent-snoc :
      (n : ℕ) (pre : List (IperfStream P)) (u : IperfStream P)
      → Absent n pre
      → (u.stream_identifier == n) ≡ false
      → Absent n (pre ++ (u ∷ []))
  unfolding Absent
  Absent-snoc n [] u a q = (q, tt)
  Absent-snoc n (p ∷ pre) u a q = (a.0, Absent-snoc n pre u a.1 q)

  Clear-snoc :
      (pre ts : List (IperfStream P)) (u : IperfStream P)
      → Clear pre ts
      → Absent u.stream_identifier ts
      → Clear (pre ++ (u ∷ [])) ts
  unfolding Clear Absent
  Clear-snoc pre [] u c a = tt
  Clear-snoc pre (t ∷ ts) u c a =
      (Absent-snoc t.stream_identifier pre u c.0 (ground arith), Clear-snoc pre ts u c.1 a.1)

  match_streams-found :
      (reliable : Bool) (time : ℕ → ℕ) (i n : ℕ) (from behind : Octets)
      (pre ts : List (IperfStream P)) (t u : IperfStream P)
      → Absent n pre
      → t.stream_identifier ≡ n
      → Absent n ts
      → deserialize_report t from ≡ ok (u, behind)
      → match_streams reliable time i n from (pre ++ (t ∷ ts))
        ≡ ok (
          pre ++ ((if reliable then u else finish_report (time (i + length pre)) u) ∷ ts),
          behind,
        )
  unfolding match_streams Absent
  match_streams-found reliable time i n from behind [] ts t u a q b e =
      let r = match_streams-Absent reliable time (i + 1) n behind ts b in
      let z : i + 0 ≡ i = omega arith in ground (arith, r, e, z)
  match_streams-found reliable time i n from behind (p ∷ pre) ts t u a q b e =
      let r = match_streams-found reliable time (i + 1) n from behind pre ts t u a.1 q b e in
      let z : i + 1 + length pre ≡ i + length (p ∷ pre) = omega arith in ground (arith, r, a.0, z)

  -- One report, and the stream that it is for.
  read_report :
      (reliable : Bool) (time : ℕ → ℕ) (n : ℕ) (s t : IperfStream P) (pre ts : List (IperfStream P))
      (more : Octets)
      → t.stream_identifier ≡ s.stream_identifier
      → s.stream_identifier < u64_mod
      → s.sender_report.summary.bytes < u64_mod
      → s.sender_report.summary.datagrams < u64_mod
      → Absent s.stream_identifier pre
      → Absent s.stream_identifier ts
      → read_reports reliable time (suc n) (serialize_report s ++ more) (pre ++ (t ∷ ts))
        ≡ read_reports reliable time n more (pre ++ (settle reliable (time (length pre)) s t ∷ ts))
  unfolding read_reports settle adopt
  read_report reliable time n s t pre ts more q h hb hd a b =
      let i = read_le-serialize_report s more h in
      let d = deserialize_report-serialize_report s t more hb hd in
      let m =
        match_streams-found reliable time 0 s.stream_identifier
          (drop 8 (serialize_report s ++ more)) more pre ts t (adopt s t) a q b d in
      let z : 0 + length pre ≡ length pre = omega arith in rw (i, m, z) refl

  read_reports-settle :
      (reliable : Bool) (time : ℕ → ℕ) (ss ts pre : List (IperfStream P)) (rest : Octets)
      → Paired ss ts
      → Clear pre ts
      → read_reports reliable time (length ss) (serialize_reports ss ++ rest) (pre ++ ts)
        ≡ ok (pre ++ settle_all reliable time (length pre) ss ts)
  unfolding read_reports serialize_reports settle_all Clear
  read_reports-settle reliable time [] ts pre rest w c = refl
  read_reports-settle reliable time (s ∷ ss) [] pre rest w c = elim w [ ]
  read_reports-settle reliable time (s ∷ ss) (t ∷ ts) pre rest (paired_cons q h hb hd a w) c =
      let more = serialize_reports ss ++ rest in
      let u = settle reliable (time (length pre)) s t in
      let one =
        read_report reliable time (length ss) s t pre ts more q h hb hd
          (subst (λ (k : ℕ). Absent k pre) q c.0) (subst (λ (k : ℕ). Absent k ts) q a) in
      let next = read_reports-settle reliable time ss ts (pre ++ (u ∷ [])) rest w (
        Clear-snoc pre ts u c.1 (
          subst (λ (k : ℕ). Absent k ts) (sym (settle-identifier reliable (time (length pre)) s t))
            a)) in
      let count : length (pre ++ (u ∷ [])) ≡ length pre + 1 = length-append pre (u ∷ []) in
      ap (λ (b : Octets). read_reports reliable time (suc (length ss)) b (pre ++ (t ∷ ts)))
        (append_assoc (serialize_report s) (serialize_reports ss) rest)
      ∙ one
      ∙ ap (λ (l : List (IperfStream P)). read_reports reliable time (length ss) more l)
          (sym (append_assoc pre (u ∷ []) ts))
      ∙ next
      ∙ ap ok (append_assoc pre (u ∷ []) _)
      ∙ ap (λ (k : ℕ). ok (pre ++ (u ∷ settle_all reliable time k ss ts))) count

  Clear-nil : (ts : List (IperfStream P)) → Clear [] ts
  unfolding Clear Absent
  Clear-nil [] = tt
  Clear-nil (t ∷ ts) = (tt, Clear-nil ts)

  -- Each report goes to the stream with its identifier, and all the others stay as they are.
  pub read_reports-settle_all :
      (reliable : Bool) (time : ℕ → ℕ) (ss ts : List (IperfStream P)) (rest : Octets)
      → Paired ss ts
      → read_reports reliable time (length ss) (serialize_reports ss ++ rest) ts
        ≡ ok (settle_all reliable time 0 ss ts)
  read_reports-settle_all reliable time ss ts rest w =
      read_reports-settle reliable time ss ts [] rest w (Clear-nil ts)

  pub length-serialize_reports :
      (ss : List (IperfStream P)) → length (serialize_reports ss) ≡ 32 * length ss
  unfolding serialize_reports
  length-serialize_reports [] = refl
  length-serialize_reports (s ∷ ss) =
      let a = length-append (serialize_report s) (serialize_reports ss) in
      omega (arith, a, length-serialize_report s, length-serialize_reports ss)
