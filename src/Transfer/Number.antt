-- ===== src/Transfer/Number.antt =====
-- The number of a transfer: the messages of its control channel and Stop leave it as it is.
use bats_protocol_api.Transfer.{note, start_connect, load_config}
use bats_protocol_api.Transfer.Session.{
  send_message, open_streams, stop, handle_control_message, send_response, handle_response,
  on_recv_response, handle_file_transfer_request, is_denied, data_config,
}
use bats_protocol_api.Prelude.Floating.{Floating}
use bats_protocol_api.Prelude.{
  Option, ℕ, arith, ◌≡◌, suc, true, ◌+◌, ◌==◌, not, none, some, ◌++◌, ◌||◌, drop, ◌∷◌, [], zero,
  refl, Bool-cases, inl, subst, sym, ==_iff, inr,
}
use bats_protocol_api.Prelude.Octets.{Octets}
use bats_protocol_api.Transfer.{Transfer, start_connect, load_config, new_stream}
use bats_protocol_api.Prelude.Results.{
  Ensures, Ensures-if, Ensures-after, require, or_fault, null_pointer, out_of_bounds, assertion,
}
use bats_protocol_api.Wire.{ControlHeader, decode, join_words, header_size}
use bats_protocol_api.Common.Config.{deserialize, default_config}
use bats_protocol_api.Prelude.Int.{pos_part}

module _ {F : Floating} where
  abbrev pub HasNumber : ℕ → Transfer F → Type 0
  HasNumber i t = t.test_id ≡ i

  send_message-HasNumber :
      (message : Octets) (t : Transfer F) → Ensures (HasNumber t.test_id) (send_message message t)
  unfolding send_message
  send_message-HasNumber message t =
      Ensures-after _ (require (not (t.test_id == 0)) assertion) _
        λ done. Ensures-after _ (or_fault t.ctrl_chn null_pointer) _ λ conn. refl

  send_response-HasNumber :
      (code : ℕ) (t : Transfer F) → Ensures (HasNumber t.test_id) (send_response code t)
  unfolding send_response
  send_response-HasNumber code t = send_message-HasNumber _ t

  open_streams-HasNumber : (i n : ℕ) (t : Transfer F) → HasNumber t.test_id (open_streams i n t)
  unfolding open_streams
  open_streams-HasNumber i zero t = refl
  open_streams-HasNumber i (suc n) t = open_streams-HasNumber (i + 1) n (
      note (start_connect t.config.port (some i))
        (record t { streams = t.streams ++ (new_stream i ∷ []) }))

  on_recv_response-HasNumber : (t : Transfer F) → Ensures (HasNumber t.test_id) (on_recv_response t)
  unfolding on_recv_response
  on_recv_response-HasNumber t =
      Ensures-after (HasNumber t.test_id) (require t.connector null_pointer) _ λ done.
        open_streams-HasNumber 0 (pos_part t.config.num_streams)
          (note (load_config (data_config F t.config)) t)

  handle_file_transfer_request-HasNumber :
      (available : Option ℕ) (header : ControlHeader) (body : Octets) (t : Transfer F)
      → Ensures (HasNumber t.test_id) (handle_file_transfer_request available header body t)
  unfolding handle_file_transfer_request
  handle_file_transfer_request-HasNumber available header body t =
      Ensures-after (HasNumber t.test_id)
        (or_fault (deserialize F body (default_config F)) out_of_bounds) _
        λ received.
          Ensures-if (HasNumber t.test_id)
            (is_denied available (join_words header.param1 header.param2)) _ _
            (send_response-HasNumber 1 t) (send_response-HasNumber 0 _)

  pub stop-HasNumber : (t : Transfer F) → HasNumber t.test_id (stop t)
  unfolding stop
  stop-HasNumber t = ground arith

  pub stop-is_stopped : (t : Transfer F) → (stop t).is_stopped ≡ true
  unfolding stop
  stop-is_stopped t = ground arith

  handle_response-HasNumber :
      (header : ControlHeader) (t : Transfer F)
      → Ensures (HasNumber t.test_id) (handle_response header t)
  unfolding handle_response
  handle_response-HasNumber header t =
      Ensures-if (HasNumber t.test_id) (header.param0 == 0) _ _ (on_recv_response-HasNumber t)
        (stop-HasNumber (record t { ctrl_chn = none }))

  pub handle_control_message-HasNumber :
      (available : Option ℕ) (conn : ℕ) (message : Octets) (t : Transfer F)
      → Ensures (HasNumber t.test_id) (handle_control_message available conn message t)
  unfolding handle_control_message
  handle_control_message-HasNumber available conn message t =
      let Q = HasNumber t.test_id in
      Ensures-after Q (or_fault (decode message) out_of_bounds) _ λ header.
        Ensures-after Q (require (header.test_id == t.test_id) assertion) _ λ same.
          Ensures-after Q (require (header.action_code == 1 || header.action_code == 4) assertion) _
            λ known.
              Ensures-if Q (header.action_code == 4) _ _ (handle_response-HasNumber header t) (
                handle_file_transfer_request-HasNumber available header (drop header_size message)
                  (record t { ctrl_chn = some conn }))

  -- A message that is handled has the number of the transfer.
  pub handle_control_message-test_id :
      (available : Option ℕ) (conn : ℕ) (message : Octets) (t : Transfer F) {header : ControlHeader}
      → decode message ≡ some header
      → Ensures (HasNumber header.test_id) (handle_control_message available conn message t)
  unfolding handle_control_message
  handle_control_message-test_id available conn message t {header} q =
      elim (Bool-cases (header.test_id == t.test_id)) [
        | inl e ↦
            subst
              (λ (n : ℕ). Ensures (HasNumber n) (handle_control_message available conn message t))
              (sym ((==_iff header.test_id t.test_id).0 e))
              (handle_control_message-HasNumber available conn message t)
        | inr e ↦ rw (q, e) tt
      ]
