-- ===== src/Cache/Below.antt =====
-- What the test of src/cache.rs for a domain and its subdomains means.
use cognidns_core.Prelude.{◌≡◌, sym, ◌∙◌, true, false}
use cognidns_core.Codec.Bytes.{Bytes}
use cognidns_core.Codec.Text.Below.{IsBelow, below-matches, IsBelow-sound}
use cognidns_core.Cache.Domain.{same_or_subdomain}

pub same_or_subdomain_sound :
    (name domain : Bytes) → same_or_subdomain name domain ≡ true → IsBelow name domain
unfolding same_or_subdomain
same_or_subdomain_sound name domain h = IsBelow-sound name domain h

pub same_or_subdomain-below :
    (name domain : Bytes) → IsBelow name domain → same_or_subdomain name domain ≡ true
unfolding same_or_subdomain
same_or_subdomain-below name domain b = below-matches name domain b

pub not-IsBelow :
    (name domain : Bytes) → same_or_subdomain name domain ≡ false → ¬ IsBelow name domain
not-IsBelow name domain h b = let e = sym h ∙ same_or_subdomain-below name domain b in cc
