-- ===== src/Test/Stopping.antt =====
-- Stop: the end of a stream and of a test.
use bats_protocol_api.Stream.{Platform, IperfStream, is_connected_state}
use bats_protocol_api.Prelude.{
  List, ℕ, map, ◌≡◌, ◌∷◌, Bool, false, ◌+◌, arith, true, [], ◌&&◌, not, Bool-cases, inr, subst, inl,
  refl,
}
use bats_protocol_api.Stream.Control.{stop}
use bats_protocol_api.Stream.Report.{print_send_recv_summary, finish_report}
use bats_protocol_api.Test.Handlers.{try_print_summary}
use bats_protocol_api.Test.Control.{stop_test}
use bats_protocol_api.Test.{
  IperfTest, Moment, each_stream, is_stream_done_state, test_done, is_receiver, note,
  print_recv_header,
}
use bats_protocol_api.Prelude.Results.{ok, Result-cases, ok-injective}

abbrev has_ended : {P : Platform} → IperfStream P → Bool
has_ended s =
    is_stream_done_state s.state && not (is_connected_state s.conn_state) && not s.connector

pub AllEnded : {P : Platform} → List (IperfStream P) → Type 0
AllEnded [] = Unit
AllEnded (s ∷ streams) = (has_ended s ≡ true) × AllEnded streams

unfoldable pub AllRunning : {P : Platform} → List (IperfStream P) → Type 0
AllRunning [] = Unit
AllRunning (s ∷ streams) = (s.is_stopped ≡ false) × AllRunning streams

module _ {P : Platform} where
  stop-ends : (now : ℕ) (s : IperfStream P) → s.is_stopped ≡ false → has_ended (stop now s) ≡ true
  unfolding stop
  stop-ends now s h = ground (arith, h)

  stop-is_stopped : (now : ℕ) (s : IperfStream P) → (stop now s).is_stopped ≡ true
  unfolding stop finish_report
  stop-is_stopped now s = ground arith

  stop-stopped : (now : ℕ) (s : IperfStream P) → s.is_stopped ≡ true → stop now s ≡ s
  unfolding stop
  stop-stopped now s h = rw h refl

  -- A second call of Stop leaves a stream as the first one left it.
  pub stop-stop : (now later : ℕ) (s : IperfStream P) → stop later (stop now s) ≡ stop now s
  stop-stop now later s = stop-stopped later (stop now s) (stop-is_stopped now s)

  streams-AllEnded :
      (time : ℕ → ℕ) (i : ℕ) (streams : List (IperfStream P))
      → AllRunning streams
      → AllEnded (each_stream stop time i streams)
  unfolding AllEnded AllRunning
  streams-AllEnded time i [] a = tt
  streams-AllEnded time i (s ∷ streams) a =
      (stop-ends (time i) s a.0, streams-AllEnded time (i + 1) streams a.1)

  printed-AllEnded :
      (streams : List (IperfStream P))
      → AllEnded streams
      → AllEnded (map print_send_recv_summary streams)
  unfolding AllEnded print_send_recv_summary
  printed-AllEnded [] a = tt
  printed-AllEnded (s ∷ streams) a = (ground (arith, a.0), printed-AllEnded streams a.1)

  print_summary-AllEnded :
      (t : IperfTest P) {u : IperfTest P}
      → try_print_summary t ≡ ok u
      → AllEnded t.streams
      → AllEnded u.streams × (u.state ≡ t.state) × (u.is_stopped ≡ t.is_stopped)
  unfolding try_print_summary
  print_summary-AllEnded t {u} e a = elim (Bool-cases (is_receiver t.config.role)) [
    | inr r ↦
        subst
          (λ (v : IperfTest P).
            AllEnded v.streams × (v.state ≡ t.state) × (v.is_stopped ≡ t.is_stopped))
          (ok-injective t u (ground arith)) (a, refl, refl)
    | inl r ↦ elim (Bool-cases t.has_printer) [
      | inl p ↦
          subst
            (λ (v : IperfTest P).
              AllEnded v.streams × (v.state ≡ t.state) × (v.is_stopped ≡ t.is_stopped))
            (ok-injective
              (record (note print_recv_header t) {
                streams = map print_send_recv_summary t.streams;
              })
              u (ground arith))
            (printed-AllEnded t.streams a, refl, refl)
      | inr p ↦ absurd (ground arith)
    ]
  ]

  -- A test that is stopped for the first time, while none of its streams is, and comes to an end of it,
  -- is done and has let go of its streams, each of which is done, disconnected and without a
  -- connector; a further Stop answers false and changes nothing.
  pub stop_test_lem :
      (m later : Moment P) (t : IperfTest P) {u : IperfTest P} {first : Bool}
      → t.is_stopped ≡ false
      → AllRunning t.streams
      → stop_test m t ≡ ok (u, first)
      → (u.state ≡ test_done)
        × (u.streams ≡ [])
        × AllEnded u.released
        × (stop_test later u ≡ ok (u, false))
  unfolding stop_test
  stop_test_lem m later t {u} {first} h a e =
      let stopped = record t {
        is_stopped = true;
        state = test_done;
        streams = each_stream stop m.time 0 t.streams;
      } in
      elim (Result-cases (try_print_summary stopped)) [
        | inr (f, q) ↦ absurd (ground arith)
        | inl (v, q) ↦
            let (ended, at, stays) =
              print_summary-AllEnded stopped {u = v} q (streams-AllEnded m.time 0 t.streams a) in
            let w = record v { streams = []; released = v.streams } in
            let same : w ≡ u = ground arith in
            subst
              (λ (x : IperfTest P).
                (x.state ≡ test_done)
                × (x.streams ≡ [])
                × AllEnded x.released
                × (stop_test later x ≡ ok (x, false)))
              same (at, refl, ended, rw stays refl)
      ]
