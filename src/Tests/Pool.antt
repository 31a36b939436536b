-- ===== src/Tests/Pool.antt =====
-- Connections at concrete keys.
use failsafe.Prelude.{
  ℕ, ◌≡◌, refl, true, none, some, [], ◌∷◌, ok, err, arith, nat_beq, nat_key, string_key, pair_key,
  ◌==◌, if◌then◌else◌,
}
use failsafe.Prelude.Assoc.{get, insert, contains}
use failsafe.Transport.Pool.{
  Connection, Connections, Keys, send_over, accept, stream_accept_ended, resolve_device,
  parse_endpoint_addr, update_address_state, from_book, build_reverse_lookup, reverse_each,
}
use failsafe.Transport.Pool.Books.{Listed}
use failsafe.Transport.Pool.Authentic.{
  accepts, updates, happens, happen, unconnected, send_over-Listed,
}
use failsafe.Transport.Pool.Replaced.{stream_accept_ended-accept}

abbrev keys : Keys
keys = record {
  public_key = λ t. if t == "one" then ok 1 else err "no key";
  text = λ n. if nat_beq n 1 then "one" else "other";
  local_id = 9;
}

abbrev line : ℕ → Connection
line n = record { number = n; remote_id = 1 }

abbrev known : Connections
known = record (unconnected keys) {
  addresses = record { book = (4, "one") ∷ []; reverse_lookup = ("one", 4) ∷ [] };
}

send_over-Listed_example : Listed keys 4 1 ((4, "one") ∷ [])
unfolding happen happens update_address_state from_book build_reverse_lookup reverse_each
    parse_endpoint_addr accept resolve_device send_over get insert
send_over-Listed_example =
    send_over-Listed keys (updates ((4, "one") ∷ []) ∷ accepts (line 7) ∷ []) 4 (line 7) refl

stream_accept_ended-accept_example :
    let both = accept keys (line 8) (accept keys (line 7) known) in
    let left = stream_accept_ended 4 7 both in
    (send_over 4 both ≡ some (line 8))
    × (send_over 4 left ≡ none)
    × (contains (4, 8) left.handlers ≡ true)
unfolding resolve_device get
stream_accept_ended-accept_example =
    stream_accept_ended-accept keys 4 (line 7) (line 8) known refl refl refl refl
      (λ p. absurd (ground (arith, p)))
