-- ===== src/Redis/Samples.antt =====
-- A Redis server that holds hashes, lists and numbers apart, and what its commands do.
use mockgo_server.Prelude.{ap, zero}
use mockgo_server.Prelude.{
  ◌&&◌, some, ◌==◌, Option, ℕ, suc, String, ◌≡◌, refl, arith, List, [], ◌∷◌, ◌++◌, none, Result, ok,
  err, GoMap, lookup, insert, or_zero, length, if◌then◌else◌, lookup-insert, eq_iff,
}
use mockgo_server.Redis.{Client}
use mockgo_server.Redis.Kvstore.Agree.{or_nil, Hashes}

pub record Server : Type 0 where
  pub hashes : GoMap (GoMap String)
  pub lists : GoMap (List String)
  pub numbers : GoMap ℕ

abbrev pub held : Server → String → List String
held s key = or_zero [] (lookup key s.lists)

abbrev pub pop : String → Server → List String → Result (Unit {0}) × Server
pop key s [] = (err "redis: nil", s)
pop key s (x ∷ xs) = (ok tt, record s { lists = insert key xs s.lists })

abbrev pub found : {V : Type 0} → Option V → Result V
found none = err "redis: nil"
found (some v) = ok v

-- In this server a number is read as a text of so many characters.
unfoldable pub text_of_number : ℕ → String
text_of_number zero = ""
text_of_number (suc n) = String.◌∷◌ "*" (text_of_number n)

unfoldable pub number_of_text : String → ℕ
number_of_text String.[] = 0
number_of_text (String.◌∷◌ c text) = suc (number_of_text text)

pub text-number : (n : ℕ) → number_of_text (text_of_number n) ≡ n
unfolding text_of_number number_of_text
text-number zero = refl
text-number (suc n) = ap suc (text-number n)

abbrev pub get_number : Option ℕ → Result String
get_number none = err "redis: nil"
get_number (some n) = ok (text_of_number n)

abbrev pub client : Client
client = record {
  Server = Server;
  ping = λ s. ok tt;
  hset = λ store key text s. (
    ok tt,
    record s {
      hashes = insert store (insert key text (or_zero [] (lookup store s.hashes))) s.hashes;
    },
  );
  hget = λ store key s. found (lookup key (or_zero [] (lookup store s.hashes)));
  hget_all = λ store s. ok (or_zero [] (lookup store s.hashes));
  rpush = λ key text s. (ok tt, record s { lists = insert key (held s key ++ text ∷ []) s.lists });
  lpop = λ key s. pop key s (held s key);
  llen = λ key s. ok (length (held s key));
  lrange = λ key s. ok (held s key);
  get = λ key s. get_number (lookup key s.numbers);
  uint64 = λ text. ok (number_of_text text);
  incr = λ key s.
      (ok tt, record s { numbers = insert key (suc (or_zero 0 (lookup key s.numbers))) s.numbers });
  set_zero = λ key s.
      (ok tt, record s { numbers = insert key 0 s.numbers; lists = insert key [] s.lists });
  del = λ key s. (ok tt, record s { lists = insert key [] s.lists });
  close = λ s. (ok tt, s);
}

abbrev pub empty : Server
empty = record { hashes = []; lists = []; numbers = [] }

pub empty-fields :
    (store key : String) → lookup {V = String} key (or_zero [] (lookup store empty.hashes)) ≡ none
unfolding lookup
empty-fields store key = refl

pub client-field_of-hset :
    (store key text store' key' : String) (s : Server)
    → lookup key' (or_zero [] (lookup store' (client.hset store key text s).1.hashes)) ≡ (
        if store == store' && key == key'
        then some text
        else lookup key' (or_zero [] (lookup store' s.hashes)))
client-field_of-hset store key text store' key' s = ground (
  arith,
  lookup-insert store store' (insert key text (or_zero [] (lookup store s.hashes))) s.hashes,
  lookup-insert key key' text (or_zero [] (lookup store s.hashes)),
  eq_iff store store',
)

pub client-hget :
    (store key : String) (s : Server)
    → client.hget store key s ≡ or_nil (lookup key (or_zero [] (lookup store s.hashes)))
client-hget store key s = ground arith

abbrev pub server_hashes : Hashes client
server_hashes = record {
  field_of = λ s store key. lookup key (or_zero [] (lookup store s.hashes));
  hget-field_of = client-hget;
  field_of-hset = client-field_of-hset;
}
