-- ===== src/Stream/Control/Retries.antt =====
-- What any run of callbacks does to a stream's connection.
use bats_protocol_api.Prelude.{
  ◌≡◌, List, [], ◌∷◌, arith, Bool, Option, ◌+◌, inr, ◌≤◌, some, inl, true, none,
}
use bats_protocol_api.Stream.Control.{connection_callback, dispatch, max_connect_retry, Callback}
use bats_protocol_api.Stream.{Platform, IperfStream}
use bats_protocol_api.Stream.Arrival.{update_received}
use bats_protocol_api.Connection.{BatsConnEvent, connection_data_received}
use bats_protocol_api.Prelude.Results.{ok, Result, Result-cases, ◌>>=◌}
use bats_protocol_api.Stream.Receive.Keeps.{connects}
use bats_protocol_api.Prelude.Octets.{Octets}
use bats_protocol_api.Stream.Arrival.Frame.{update_received-Arrived}

module _ {P : Platform} where
  -- The new requests for a connection are the retries, and the writable flag is never cleared.
  pub record Follows (s t : IperfStream P) : Type 0 where
    pub counted : connects t.calls + s.connect_retry_cnt ≡ connects s.calls + t.connect_retry_cnt
    pub bounded : s.connect_retry_cnt ≤ max_connect_retry → t.connect_retry_cnt ≤ max_connect_retry
    pub stays_writable : s.is_writable ≡ true → t.is_writable ≡ true

  arrival-Follows :
      (call : Callback) (payload : Option Octets) (s : IperfStream P) {r : IperfStream P × Bool}
      → update_received call.clock call.sending payload s ≡ ok r
      → Follows s r.0
  unfolding update_received
  arrival-Follows call none s e = ground arith
  arrival-Follows call (some []) s e = ground arith
  arrival-Follows call (some (b ∷ rest)) s {r} e =
      let a = update_received-Arrived call.clock call.sending b rest s {r = r} e in ground arith

  dispatch-Follows :
      (event : BatsConnEvent) (call : Callback) (s : IperfStream P) {r : IperfStream P × Bool}
      → dispatch event call s ≡ ok r
      → Follows s r.0
  unfolding dispatch
  dispatch-Follows connection_data_received call s {r} e =
      arrival-Follows call call.payload s {r = r} e
  dispatch-Follows _ call s e = ground arith

  -- The stream after a list of callbacks that all come to an end.
  unfoldable pub callbacks : List Callback → IperfStream P → Result (IperfStream P)
  callbacks [] s = ok s
  callbacks (call ∷ calls) s = do (t, processed) ← connection_callback call s; callbacks calls t

  callbacks-Follows :
      (calls : List Callback) (s : IperfStream P) {t : IperfStream P}
      → callbacks calls s ≡ ok t
      → Follows s t
  unfolding callbacks connection_callback
  callbacks-Follows [] s e = ground arith
  callbacks-Follows (call ∷ calls) s {t} e = elim (Result-cases (dispatch call.event call s)) [
    | inr (f, q) ↦ ground arith
    | inl (u, q) ↦
        ground
          (arith, dispatch-Follows call.event call s {r = u} q, callbacks-Follows calls u.0 {t = t})
  ]

  -- Over any run of callbacks the connector is asked to connect exactly once for each counted retry, and
  -- at most three times, when the stream starts without a retry.
  pub connects-callbacks :
      (calls : List Callback) (s : IperfStream P) {t : IperfStream P}
      → callbacks calls s ≡ ok t
      → s.connect_retry_cnt ≡ 0
      → (connects t.calls ≡ connects s.calls + t.connect_retry_cnt)
        × (connects t.calls ≤ connects s.calls + max_connect_retry)
  connects-callbacks calls s e z =
      let f = callbacks-Follows calls s e in omega (arith, f.counted, f.bounded (omega arith))

  -- No run of callbacks takes the writable flag away from a stream that has it: BUFFER_FULL leaves the
  -- flag set like all other events.
  pub is_writable-callbacks :
      (calls : List Callback) (s : IperfStream P) {t : IperfStream P}
      → callbacks calls s ≡ ok t
      → s.is_writable ≡ true
      → t.is_writable ≡ true
  is_writable-callbacks calls s e w = (callbacks-Follows calls s e).stays_writable w
