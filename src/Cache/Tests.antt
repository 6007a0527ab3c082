-- ===== src/Cache/Tests.antt =====
-- The cache of src/cache.rs on concrete entries.
use cognidns_core.Prelude.{
  ℕ, zero, suc, ◌*◌, ◌≤◌, ◌<◌, max, ◌≡◌, refl, ◌≢◌, ◌↔◌, ◌⊎◌, true, false, none, some, [], ◌∷◌,
  arith, length, get_or,
}
use cognidns_core.Codec.Ttl.{decay_loop, decay_response_ttl_in_place}
use cognidns_core.Codec.Edns.{parse_response_overview, response_code}
use cognidns_core.Codec.Text.{
  text_eq, strip_prefix, strip_any, strip_while, trim_start_any, trim_end_any, trim, trim_end_dots,
  lower_byte, to_lower, is_prefix, ends_with,
}
use cognidns_core.Codec.Section.{skip_question, skip_questions}
use cognidns_core.Codec.Bytes.{Bytes}
use cognidns_core.Codec.Header.{parse_header}
use cognidns_core.Codec.Text.Below.{IsBelow}
use cognidns_core.Codec.Bytes.All.{all_bytes_sound}
use cognidns_core.Cache.Domain.{normalize_domain, same_or_subdomain}
use cognidns_core.Cache.Invariant.{put_step, prune_step, Reach, here, then_step, Reach-bounds}
use cognidns_core.Cache.State.{
  ResponseCache, cache_shard_count, new, bounded_shard_capacity, is_frozen_for_qname,
  set_freeze_domain, map_shards, total_entries, clear_all, clear_domain, trim_shard, set_capacity,
  hit_response, drop_expired, get_shard, insert_shard, shard_index_for_key, shard_of, get,
  get_stale, put, prune_expired,
}
use cognidns_core.Cache.Evict.{evict_loop-lt}
use cognidns_core.Cache.Freeze.{is_frozen-set_freeze_domain}
use cognidns_core.Cache.Map.{Distinct}
use cognidns_core.Cache.Hex.{encode_hex, decode_hex}
use cognidns_core.Cache.Reads.{IsValid, get-put, get_stale-put_ne, get_fresh, get_stale-get_expired}
use cognidns_core.Cache.Clear.{lookup-clear_domain}
use cognidns_core.Cache.Shard.{
  CacheKey, CacheEntry, key_eq, lookup, remove, insert, retain, touch, oldest_from, oldest_key,
  evict_loop, trim_to, make_room_for_insert_locked,
}
use cognidns_core.Cache.Hex.RoundTrip.{decode_hex-encode_hex}

program : Unit {0}
unfolding clear_domain normalize_domain same_or_subdomain trim trim_start_any trim_end_any
    strip_while strip_any strip_prefix trim_end_dots to_lower lower_byte ends_with is_prefix key_eq
    text_eq lookup remove insert retain touch oldest_key oldest_from evict_loop trim_to
    make_room_for_insert_locked bounded_shard_capacity hit_response drop_expired get_shard
    insert_shard shard_index_for_key get get_stale put prune_expired new cache_shard_count clear_all
    map_shards response_code parse_response_overview parse_header skip_questions skip_question
    decay_response_ttl_in_place decay_loop set_capacity trim_shard
program = tt

abbrev www : CacheKey
www = record { qname = 119 ∷ []; qtype = 1; dnssec_ok = false }

abbrev mail : CacheKey
mail = record { qname = 109 ∷ []; qtype = 1; dnssec_ok = false }

abbrev answer : Bytes
answer = 7 ∷ 8 ∷ 129 ∷ 128 ∷ 0 ∷ 0 ∷ 0 ∷ 0 ∷ 0 ∷ 0 ∷ 0 ∷ 0 ∷ []

abbrev kept : CacheEntry
kept = record {
  response = answer;
  inserted_at = 0;
  expires_at = 5;
  original_ttl_secs = 0;
  rcode = 0;
  last_access = 0;
}

abbrev zero_hash : CacheKey → ℕ
zero_hash key = 0

abbrev one_entry : ResponseCache
one_entry = record {
  shards = ((www, kept) ∷ []) ∷ [];
  capacity = 1;
  freeze_all = false;
  freeze_domains = [];
}

one_entry-IsValid : IsValid one_entry
unfolding program
one_entry-IsValid = record { some_shard = omega arith; distinct = one }
  where
    one : (i : ℕ) → Distinct (get_or one_entry.shards i [])
    one zero = (refl, tt)
    one (suc i) = tt

two_keys : key_eq www mail ≡ false
unfolding program
two_keys = refl

get-put_example :
    (get zero_hash true (put zero_hash one_entry mail answer 10 100) mail false 105 106).1
    ≡ some answer
get-put_example =
    get-put zero_hash one_entry mail true answer 10 100 105 106 one_entry-IsValid (omega arith)

get_stale-put_ne_example :
    (get_stale zero_hash (put zero_hash one_entry www answer 10 100) mail
      ≡ get_stale zero_hash one_entry mail)
    ⊎ (get_stale zero_hash (put zero_hash one_entry www answer 10 100) mail ≡ none)
get_stale-put_ne_example =
    get_stale-put_ne zero_hash one_entry www answer 10 100 mail one_entry-IsValid two_keys

fresh_read : (get zero_hash true one_entry www false 3 4).1 ≡ some answer
unfolding program
fresh_read = refl

get_fresh_example :
    (e : CacheEntry) × (lookup www (shard_of zero_hash one_entry www) ≡ some e)
    × (3 < e.expires_at)
    × (answer ≡ hit_response e false 3)
get_fresh_example = get_fresh zero_hash one_entry www true 3 4 answer fresh_read

stored : lookup www (shard_of zero_hash one_entry www) ≡ some kept
unfolding program
stored = refl

get_stale-get_expired_example :
    ((get zero_hash true one_entry www false 7 8).1 ≡ none)
    × (get_stale zero_hash (get zero_hash true one_entry www false 7 8).0 www ≡ none)
get_stale-get_expired_example =
    get_stale-get_expired zero_hash one_entry www true 7 8 kept one_entry-IsValid stored
      (omega arith) (omega arith)

abbrev after_put : ResponseCache
after_put = put zero_hash (new none 3) www answer 10 100

-- The steps of a stored and a removed entry.
reached : Reach zero_hash (new none 3) (prune_expired zero_hash after_put www 200)
reached = then_step (then_step here (put_step www answer 10 100)) (prune_step www 200)

capacity_kept : (prune_expired zero_hash after_put www 200).capacity ≢ 0
unfolding program
capacity_kept = ground arith

Reach-bounds_example :
    total_entries (prune_expired zero_hash after_put www 200).shards
    ≤ max
        (prune_expired zero_hash after_put www 200).capacity
        (length (prune_expired zero_hash after_put www 200).shards)
Reach-bounds_example = Reach-bounds zero_hash none 3 reached capacity_kept

evict_loop-lt_example : length (evict_loop 1 1 ((www, kept) ∷ [])) < 1
evict_loop-lt_example = evict_loop-lt 1 1 ((www, kept) ∷ []) (omega arith) (omega arith)

decode_hex-encode_hex_example :
    (decode_hex (encode_hex answer) ≡ some answer)
    × (length (encode_hex answer) ≡ length answer * 2)
decode_hex-encode_hex_example = decode_hex-encode_hex answer (all_bytes_sound answer refl)

domain-some : 0 < length (normalize_domain (119 ∷ []))
unfolding program
domain-some = omega arith

lookup-clear_domain_example :
    (IsBelow (normalize_domain mail.qname) (normalize_domain (119 ∷ []))
      × (lookup mail (get_or (clear_domain one_entry (119 ∷ [])).0.shards 0 []) ≡ none))
    ⊎ ((¬ IsBelow (normalize_domain mail.qname) (normalize_domain (119 ∷ [])))
        × (lookup mail (get_or (clear_domain one_entry (119 ∷ [])).0.shards 0 [])
            ≡ lookup mail (get_or one_entry.shards 0 [])))
lookup-clear_domain_example = lookup-clear_domain one_entry (119 ∷ []) 0 mail domain-some

www-cleared : lookup www (get_or (clear_domain one_entry (119 ∷ [])).0.shards 0 []) ≡ none
unfolding program
www-cleared = refl

is_frozen-set_freeze_domain_example :
    (is_frozen_for_qname (set_freeze_domain one_entry (119 ∷ []) true).0 (119 ∷ []) ≡ true) ↔ (
      IsBelow (normalize_domain (119 ∷ [])) (normalize_domain (119 ∷ []))
      ⊎ (is_frozen_for_qname one_entry (119 ∷ []) ≡ true))
is_frozen-set_freeze_domain_example =
    is_frozen-set_freeze_domain one_entry (119 ∷ []) (119 ∷ []) domain-some domain-some
