-- ===== src/Resolver/DnssecCache.antt =====
-- The cache of validation results in src/resolver/dnssec_cache.rs. The key is the hash that
-- `make_key` computes.
use cognidns_core.Prelude.{
  ℕ, ◌+◌, ◌*◌, Option, none, some, List, [], ◌∷◌, ltb, if◌then◌else◌, ◌>>=◌, length,
}
use cognidns_core.Maps.{text_key, number_key, find_key, insert_key}
use cognidns_core.Cache.State.{second}

pub data ValidationState : Type 0 where
  secure : ValidationState
  insecure : ValidationState

-- Each result with the time at which it expires, and the time to live in nanoseconds.
pub record DnssecValidationCache : Type 0 where
  pub validations : List (ℕ × (ValidationState × ℕ))
  pub validation_ttl : ℕ

unfoldable pub new_validations : ℕ → DnssecValidationCache
new_validations ttl_secs = record { validations = []; validation_ttl = ttl_secs * second }

unfoldable pub get_validation : ℕ → ℕ → DnssecValidationCache → Option ValidationState
get_validation now key c = find_key ⦃key = number_key⦄ key c.validations >>= λ (state, expires).
    if ltb now expires then some state else none

unfoldable pub unexpired : ℕ → List (ℕ × (ValidationState × ℕ)) → List (ℕ × (ValidationState × ℕ))
unexpired now [] = []
unexpired now ((k, (state, expires)) ∷ m) =
    let rest = unexpired now m in if ltb now expires then (k, (state, expires)) ∷ rest else rest

-- `now` is read for the entry, `later` when the entries are pruned.
unfoldable pub insert_validation :
    ℕ → ℕ → ℕ → ValidationState → DnssecValidationCache → DnssecValidationCache
insert_validation now later key state c =
    let inserted =
      insert_key ⦃key = number_key⦄ key (state, now + c.validation_ttl) c.validations in
    record c {
      validations = if ltb 1024 (length inserted) then unexpired later inserted else inserted;
    }
