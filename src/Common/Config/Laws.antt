-- ===== src/Common/Config/Laws.antt =====
-- What of a configuration reaches the peer.
use bats_protocol_api.Prelude.{ℕ, ◌+◌, ◌<◌, ◌≡◌, some, ◌++◌, arith}
use bats_protocol_api.Prelude.Int.{ℤ, pos, negsuc, wrap}
use bats_protocol_api.Prelude.Octets.{Octets, le_octets, read_le}
use bats_protocol_api.Prelude.Floating.{Floating}
use bats_protocol_api.Common.Config.{TestConfig, serialize, deserialize, hundredths}

wrap-lt : (k : ℕ) (z : ℤ) → wrap (k + 1) z < k + 1
wrap-lt k (pos n) = omega arith
wrap-lt k (negsuc n) = omega arith

module _ (F : Floating) where
  open F use {Float, of_nat, literal, times, over, to_nat}

  -- A configuration that is received has the sender's interval and time in hundredths, its protocol
  -- and port to the width of their fields, and its direction; everything else, the number of streams
  -- among it, stays as the receiver had it.
  pub deserialize-serialize :
      (c d : TestConfig Float) (rest : Octets)
      → deserialize F (serialize F c ++ rest) d
        ≡ some (record d {
          interval = over (of_nat (hundredths F c.interval)) (literal 100 0);
          time = over (of_nat (hundredths F c.time)) (literal 100 0);
          protocol = pos (wrap 256 c.protocol);
          is_reverse_enabled = c.is_reverse_enabled;
          port = pos (wrap 65536 c.port);
        })
  unfolding deserialize serialize le_octets read_le hundredths
  deserialize-serialize c d rest = ground (arith, wrap-lt 65535 c.port, wrap-lt 255 c.protocol)
