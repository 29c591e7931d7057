-- ===== src/Object/Permits.antt =====
-- Redeeming a permit: it gives neither ADMIN nor AGENT, and `Token::new` accepts the result.
use akarin.Base.{◌≡◌, true}
use akarin.Base.Bits.{Bits, ◌∪◌, equal}
use akarin.Memory.Control.{all_caps}
use akarin.Object.{Token, governs, Object}

-- What `Token::new` asks: a token that governs has every interface right.
pub record IsSound (t : Token) : Type 0 where
  pub unrestricted : governs t.capabilities ≡ true → equal t.interface_caps all_caps ≡ true

-- The token that redeeming gives.
abbrev redeemed : Token → Token → Token
redeemed t u = record {
  id = t.id;
  capabilities = t.capabilities ∪ u.capabilities;
  interface_caps = t.interface_caps ∪ u.interface_caps;
}
