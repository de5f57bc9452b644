-- ===== src/Redis/Matchstore/Stored.antt =====
-- What GetMatches of mockgo-redis/matchstore/matchstore.go returns of the matches that were added.
use mockgo_server.Prelude.{
  eq_refl, has_suffix, true, false, if◌then◌else◌, eq_iff, ◌==◌, ℕ, ◌-◌, String, ◌≡◌, ap, sym, ◌∙◌,
  inl, inr, arith, All, List, [], ◌∷◌, map, ok, length, Bool-cases,
}
use mockgo_server.Matches.{Match, Mismatch}
use mockgo_server.Matches.Inmemory.Log.{
  Call, matched, missed, matches_deleted, mismatches_deleted, Log, record_call, record_calls,
  empty_log,
}
use mockgo_server.Matches.Inmemory.Capacity.{last, last-nil}
use mockgo_server.Redis.{Client}
use mockgo_server.Redis.Matchstore.{
  remove, mismatches_key, redis_add_mismatch, redis_get_mismatches, RecordJson, counter_key,
  redis_add_match, redis_get_matches,
}
use mockgo_server.Redis.Matchstore.Capacity.{Lists, IsEmpty, push_lem, and_then_of_ok}
use mockgo_server.Redis.Matchstore.Kept.{
  All-drop, All-append, length-kept, last-kept, decode_all-map,
}
use mockgo_server.Redis.Matchstore.Calls.{
  IsName, IsFine, redis_call, redis_calls, name-ne-counter, mismatches_key-has_suffix,
}

module _ (client : Client) (l : Lists client) (json : RecordJson) (capacity : ℕ)
    (encode : Match → String) (encode_mismatch : Mismatch → String) where
  -- What the server holds after calls, against the log of all that they recorded.
  pub record Holds (s : client.Server) (g : Log Match Mismatch) : Type 0 where
    pub kept : (id : String) → IsName id → l.items s id ≡ map encode (last capacity (g.matches id))
    pub kept_mismatches :
        l.items s mismatches_key ≡ map encode_mismatch (last capacity g.mismatches)
    pub lists : (key : String) → has_suffix key "__counter__" ≡ false → l.is_list s key ≡ true
    pub decodes : (id : String) → All (λ m. json.unmarshal_match (encode m) ≡ ok m) (g.matches id)
    pub decodes_mismatches :
        All (λ n. json.unmarshal_mismatch (encode_mismatch n) ≡ ok n) g.mismatches

  items-remove :
      (key other : String) (s : client.Server)
      → l.items (remove client capacity key s).1 other
        ≡ (if counter_key key == other then [] else (if key == other then [] else l.items s other))
  unfolding remove
  items-remove key other s =
      rw
        (and_then_of_ok client l capacity (client.del key s) (client.set_zero (counter_key key))
          (l.del-ok key s))
        (l.items-set_zero (counter_key key) other _
          ∙ ap (λ x. if counter_key key == other then [] else x) (l.items-del key other s))

  is_list-remove :
      (key other : String) (s : client.Server)
      → has_suffix other "__counter__" ≡ false
      → l.is_list s other ≡ true
      → l.is_list (remove client capacity key s).1 other ≡ true
  unfolding remove
  is_list-remove key other s plain is =
      rw
        (and_then_of_ok client l capacity (client.del key s) (client.set_zero (counter_key key))
          (l.del-ok key s))
        (l.is_list-set_zero (counter_key key) other (client.del key s).1
            (name-ne-counter other key plain)
          ∙ ground (arith, l.is_list-del key other s, is))

  Holds-matched :
      (id : String) (m : Match) (s : client.Server) (g : Log Match Mismatch)
      → IsFine json encode encode_mismatch (matched id m)
      → Holds s g
      → Holds (redis_call client json capacity s (matched id m)) (record_call g (matched id m))
  unfolding redis_add_match
  Holds-matched id m s g (name, same, back) h =
      let (kinds, lists) =
        push_lem client l capacity id (encode m) s (h.lists id name.0)
          (length-kept encode capacity (l.items s id) (g.matches id) (h.kept id name)) in
      let put = last-kept encode capacity (l.items s id) (g.matches id) (h.kept id name) m in
      rw (redis_call, same)
        (record {
          kept = λ j name'. ground (arith, lists j, put, h.kept j name', eq_iff id j);
          kept_mismatches = ground (arith, lists mismatches_key, name.1, h.kept_mismatches);
          lists = λ key plain. kinds key (name-ne-counter key id plain) ∙ h.lists key plain;
          decodes = λ j. elim (Bool-cases (id == j)) [
            | inl same' ↦ rw same' (All-append _ (g.matches id) m (h.decodes id) back)
            | inr other ↦ rw other (h.decodes j)
          ];
          decodes_mismatches = h.decodes_mismatches;
        })

  Holds-missed :
      (n : Mismatch) (s : client.Server) (g : Log Match Mismatch)
      → IsFine json encode encode_mismatch (missed n)
      → Holds s g
      → Holds (redis_call client json capacity s (missed n)) (record_call g (missed n))
  unfolding redis_add_mismatch
  Holds-missed n s g (same, back) h =
      let (kinds, lists) =
        push_lem client l capacity mismatches_key (encode_mismatch n) s
          (h.lists mismatches_key mismatches_key-has_suffix)
          (length-kept encode_mismatch capacity (l.items s mismatches_key) g.mismatches
            h.kept_mismatches) in
      let put =
        last-kept encode_mismatch capacity (l.items s mismatches_key) g.mismatches h.kept_mismatches
          n in
      rw (redis_call, same)
        (record {
          kept = λ j name. ground (
            arith,
            lists j,
            name.1,
            eq_iff mismatches_key j,
            eq_iff j mismatches_key,
            h.kept j name,
          );
          kept_mismatches = ground (arith, lists mismatches_key, put, eq_refl mismatches_key);
          lists =
              λ key plain. kinds key (name-ne-counter key mismatches_key plain) ∙ h.lists key plain;
          decodes = h.decodes;
          decodes_mismatches = All-append _ g.mismatches n h.decodes_mismatches back;
        })

  Holds-matches_deleted :
      (id : String) (s : client.Server) (g : Log Match Mismatch)
      → IsName id
      → Holds s g
      → Holds
          (redis_call client json capacity s (matches_deleted id))
          (record_call g (matches_deleted id))
  Holds-matches_deleted id s g name h = record {
    kept = λ j name'. ground (
      arith,
      items-remove id j s,
      name-ne-counter j id name'.0,
      h.kept j name',
      last-nil {A = Match} capacity,
    );
    kept_mismatches = ground (
      arith,
      items-remove id mismatches_key s,
      name-ne-counter mismatches_key id mismatches_key-has_suffix,
      name.1,
      h.kept_mismatches,
    );
    lists = λ key plain. is_list-remove id key s plain (h.lists key plain);
    decodes = λ j. elim (Bool-cases (id == j)) [
      | inl same' ↦ rw same' tt
      | inr other ↦ rw other (h.decodes j)
    ];
    decodes_mismatches = h.decodes_mismatches;
  }

  Holds-mismatches_deleted :
      (s : client.Server) (g : Log Match Mismatch)
      → Holds s g
      → Holds
          (redis_call client json capacity s mismatches_deleted)
          (record_call g mismatches_deleted)
  Holds-mismatches_deleted s g h = record {
    kept = λ j name. ground (
      arith,
      items-remove mismatches_key j s,
      name-ne-counter j mismatches_key name.0,
      name.1,
      eq_iff mismatches_key j,
      eq_iff j mismatches_key,
      h.kept j name,
    );
    kept_mismatches = ground (
      arith,
      items-remove mismatches_key mismatches_key s,
      eq_refl mismatches_key,
      name-ne-counter mismatches_key mismatches_key mismatches_key-has_suffix,
      last-nil {A = Mismatch} capacity,
    );
    lists = λ key plain. is_list-remove mismatches_key key s plain (h.lists key plain);
    decodes = h.decodes;
    decodes_mismatches = tt;
  }

  pub redis_call-Holds :
      (s : client.Server) (g : Log Match Mismatch) (c : Call Match Mismatch)
      → IsFine json encode encode_mismatch c
      → Holds s g
      → Holds (redis_call client json capacity s c) (record_call g c)
  redis_call-Holds s g (matched id m) fine h = Holds-matched id m s g fine h
  redis_call-Holds s g (missed n) fine h = Holds-missed n s g fine h
  redis_call-Holds s g (matches_deleted id) fine h = Holds-matches_deleted id s g fine h
  redis_call-Holds s g mismatches_deleted fine h = Holds-mismatches_deleted s g h

  redis_calls-Holds :
      (s : client.Server) (g : Log Match Mismatch) (cs : List (Call Match Mismatch))
      → All (IsFine json encode encode_mismatch) cs
      → Holds s g
      → Holds (redis_calls client json capacity s cs) (record_calls g cs)
  redis_calls-Holds s g [] fine h = h
  redis_calls-Holds s g (c ∷ cs) (fine, rest) h =
      redis_calls-Holds (redis_call client json capacity s c) (record_call g c) cs rest
        (redis_call-Holds s g c fine h)

  pub empty-Holds : (s : client.Server) → IsEmpty client l s → Holds s empty_log
  empty-Holds s empty = record {
    kept = λ id name. (empty id name.0).0 ∙ ap (map encode) (sym (last-nil capacity));
    kept_mismatches =
        (empty mismatches_key mismatches_key-has_suffix).0
        ∙ ap (map encode_mismatch) (sym (last-nil capacity));
    lists = λ key plain. (empty key plain).1;
    decodes = λ id. tt;
    decodes_mismatches = tt;
  }

  module _ (s : client.Server) (empty : IsEmpty client l s) (cs : List (Call Match Mismatch))
      (fine : All (IsFine json encode encode_mismatch) cs) where
    -- Over a Redis server that answers, and holds nothing at first under any key but those of the counters, whatever
    -- the calls: GetMatches returns the last `capacity` matches of the endpoint since its last deletion, oldest
    -- first, each as it was when AddMatch was called, and GetMismatches the last `capacity` mismatches since their
    -- last deletion. It is assumed that JSON gives the records back as they were, and that no endpoint has the key of
    -- a counter or of the mismatches as its ID.
    pub redis_get_matches-redis_calls :
        (id : String)
        → IsName id
        → ((redis_get_matches client json capacity id (redis_calls client json capacity s cs)).0
            ≡ ok (last capacity ((record_calls empty_log cs).matches id)))
          × ((redis_get_mismatches client json capacity (redis_calls client json capacity s cs)).0
              ≡ ok (last capacity (record_calls empty_log cs).mismatches))
    unfolding redis_get_matches redis_get_mismatches
    redis_get_matches-redis_calls id name =
        let h = redis_calls-Holds s empty_log cs fine (empty-Holds s empty) in
        let g = record_calls empty_log cs in
        (
          rw
              (
                l.lrange-items id (redis_calls client json capacity s cs) (h.lists id name.0),
                h.kept id name,
              )
              (decode_all-map encode json.unmarshal_match [] (last capacity (g.matches id))
                (All-drop _ (length (g.matches id) - capacity) (g.matches id) (h.decodes id))),
          rw
              (
                l.lrange-items mismatches_key (redis_calls client json capacity s cs)
                    (h.lists mismatches_key mismatches_key-has_suffix),
                h.kept_mismatches,
              )
              (decode_all-map encode_mismatch json.unmarshal_mismatch []
                (last capacity g.mismatches)
                (All-drop _ (length g.mismatches - capacity) g.mismatches h.decodes_mismatches)),
        )
