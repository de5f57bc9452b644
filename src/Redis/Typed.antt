-- ===== src/Redis/Typed.antt =====
-- A Redis server whose keys hold values of several kinds: a command for another kind is the error WRONGTYPE.
use mockgo_server.Prelude.{
  ap, ◌>>=◌, eq_refl, Bool, true, false, ◌≤◌, some, ◌==◌, Option, ℕ, suc, String, ◌≡◌, refl, arith,
  List, [], ◌∷◌, ◌++◌, none, Result, ok, err, GoMap, lookup, insert, or_zero, length, drop,
  if◌then◌else◌, lookup-insert, eq_iff, has_suffix,
}
use mockgo_server.Redis.{Client}
use mockgo_server.Redis.Matchstore.{counter_key}
use mockgo_server.Redis.Matchstore.Capacity.{Lists}
use mockgo_server.Redis.Matchstore.Counters.{Numbers, or_missing}
use mockgo_server.Redis.Samples.{text_of_number, number_of_text, text-number}

pub data Entry : Type 0 where
  gone : Entry
  texts : List String → Entry
  hash : GoMap String → Entry
  whole : ℕ → Entry

abbrev pub at : String → GoMap Entry → Entry
at key s = or_zero gone (lookup key s)

abbrev wrong_type : {A : Type 0} → Result A
wrong_type = err "WRONGTYPE Operation against a key holding the wrong kind of value"

-- A command that writes the value of a key.
abbrev pub upon :
    String → (Entry → Result (Unit {0}) × Entry) → GoMap Entry → Result (Unit {0}) × GoMap Entry
upon key command s = ((command (at key s)).0, insert key (command (at key s)).1 s)

abbrev pub rpush_entry : String → Entry → Result (Unit {0}) × Entry
rpush_entry text gone = (ok tt, texts (text ∷ []))
rpush_entry text (texts xs) = (ok tt, texts (xs ++ text ∷ []))
rpush_entry text e = (wrong_type, e)

abbrev pub lpop_entry : Entry → Result (Unit {0}) × Entry
lpop_entry gone = (err "redis: nil", gone)
lpop_entry (texts []) = (err "redis: nil", texts [])
lpop_entry (texts (x ∷ xs)) = (ok tt, texts xs)
lpop_entry e = (wrong_type, e)

abbrev pub incr_entry : Entry → Result (Unit {0}) × Entry
incr_entry gone = (ok tt, whole 1)
incr_entry (whole n) = (ok tt, whole (suc n))
incr_entry e = (wrong_type, e)

abbrev pub hset_entry : String → String → Entry → Result (Unit {0}) × Entry
hset_entry key text gone = (ok tt, hash (insert key text []))
hset_entry key text (hash m) = (ok tt, hash (insert key text m))
hset_entry key text e = (wrong_type, e)

abbrev pub texts_of : Entry → Result (List String)
texts_of gone = ok []
texts_of (texts xs) = ok xs
texts_of e = wrong_type

abbrev pub length_of : Entry → Result ℕ
length_of gone = ok 0
length_of (texts xs) = ok (length xs)
length_of e = wrong_type

abbrev pub hash_of : Entry → Result (GoMap String)
hash_of gone = ok []
hash_of (hash m) = ok m
hash_of e = wrong_type

abbrev pub text_of : Entry → Result String
text_of gone = err "redis: nil"
text_of (whole n) = ok (text_of_number n)
text_of e = wrong_type

abbrev or_nil_field : Option String → Result String
or_nil_field none = err "redis: nil"
or_nil_field (some text) = ok text

abbrev pub typed : Client
typed = record {
  Server = GoMap Entry;
  ping = λ s. ok tt;
  hset = λ store key text s. upon store (hset_entry key text) s;
  hget = λ store key s. hash_of (at store s) >>= λ m. or_nil_field (lookup key m);
  hget_all = λ store s. hash_of (at store s);
  rpush = λ key text s. upon key (rpush_entry text) s;
  lpop = λ key s. upon key lpop_entry s;
  llen = λ key s. length_of (at key s);
  lrange = λ key s. texts_of (at key s);
  get = λ key s. text_of (at key s);
  uint64 = λ text. ok (number_of_text text);
  incr = λ key s. upon key incr_entry s;
  set_zero = λ key s. upon key (λ e. (ok tt, whole 0)) s;
  del = λ key s. upon key (λ e. (ok tt, gone)) s;
  close = λ s. (ok tt, s);
}

abbrev pub items_of : Entry → List String
items_of (texts xs) = xs
items_of e = []

abbrev pub lists_only : Entry → Bool
lists_only gone = true
lists_only (texts xs) = true
lists_only e = false

abbrev pub number_of : Entry → Option ℕ
number_of (whole n) = some n
number_of e = none

abbrev pub numbers_only : Entry → Bool
numbers_only gone = true
numbers_only (whole n) = true
numbers_only e = false

-- What a command leaves of a property of an entry.
pub at-upon :
    {A : Type 0} (p : Entry → A) (key : String) (command : Entry → Result (Unit {0}) × Entry)
    (other : String) (s : GoMap Entry)
    → p (at other (upon key command s).1)
      ≡ (if key == other then p (command (at key s)).1 else p (at other s))
at-upon p key command other s = ground (arith, lookup-insert key other (command (at key s)).1 s)

-- A command that leaves the property of its key's entry leaves that of all.
pub at-upon_same :
    {A : Type 0} (p : Entry → A) (key : String) (command : Entry → Result (Unit {0}) × Entry)
    (other : String) (s : GoMap Entry)
    → ((e : Entry) → p (command e).1 ≡ p e)
    → p (at other (upon key command s).1) ≡ p (at other s)
at-upon_same p key command other s same =
    ground (arith, at-upon p key command other s, same (at key s), eq_iff key other)

pub at-upon_other :
    {A : Type 0} (p : Entry → A) (key : String) (command : Entry → Result (Unit {0}) × Entry)
    (other : String) (s : GoMap Entry)
    → (key == other) ≡ false
    → p (at other (upon key command s).1) ≡ p (at other s)
at-upon_other p key command other s differs = ground (arith, at-upon p key command other s, differs)

pub rpush_entry_lem :
    (text : String) (e : Entry)
    → lists_only e ≡ true
    → ((rpush_entry text e).0 ≡ ok tt) × (items_of (rpush_entry text e).1 ≡ items_of e ++ text ∷ [])
rpush_entry_lem text gone h = (refl, refl)
rpush_entry_lem text (texts xs) h = (refl, refl)
rpush_entry_lem text (hash m) h = cc
rpush_entry_lem text (whole n) h = cc

pub rpush-lists_only :
    (text : String) (e : Entry) → lists_only (rpush_entry text e).1 ≡ lists_only e
rpush-lists_only text gone = refl
rpush-lists_only text (texts xs) = refl
rpush-lists_only text (hash m) = refl
rpush-lists_only text (whole n) = refl

pub length_of_lem : (e : Entry) → lists_only e ≡ true → length_of e ≡ ok (length (items_of e))
length_of_lem gone h = refl
length_of_lem (texts xs) h = refl
length_of_lem (hash m) h = cc
length_of_lem (whole n) h = cc

pub texts_of_lem : (e : Entry) → lists_only e ≡ true → texts_of e ≡ ok (items_of e)
texts_of_lem gone h = refl
texts_of_lem (texts xs) h = refl
texts_of_lem (hash m) h = cc
texts_of_lem (whole n) h = cc

pub lpop-ok : (e : Entry) → 1 ≤ length (items_of e) → (lpop_entry e).0 ≡ ok tt
lpop-ok gone h = absurd (omega arith)
lpop-ok (texts []) h = absurd (omega arith)
lpop-ok (texts (x ∷ xs)) h = refl
lpop-ok (hash m) h = absurd (omega arith)
lpop-ok (whole n) h = absurd (omega arith)

lpop-items : (e : Entry) → items_of (lpop_entry e).1 ≡ drop 1 (items_of e)
lpop-items gone = refl
lpop-items (texts []) = refl
lpop-items (texts (x ∷ xs)) = refl
lpop-items (hash m) = refl
lpop-items (whole n) = refl

pub lpop-lists_only : (e : Entry) → lists_only (lpop_entry e).1 ≡ lists_only e
lpop-lists_only gone = refl
lpop-lists_only (texts []) = refl
lpop-lists_only (texts (x ∷ xs)) = refl
lpop-lists_only (hash m) = refl
lpop-lists_only (whole n) = refl

pub incr-items : (e : Entry) → items_of (incr_entry e).1 ≡ items_of e
incr-items gone = refl
incr-items (texts xs) = refl
incr-items (hash m) = refl
incr-items (whole n) = refl

incr-numbers_only : (e : Entry) → numbers_only e ≡ true → numbers_only (incr_entry e).1 ≡ true
incr-numbers_only gone h = refl
incr-numbers_only (texts xs) h = h
incr-numbers_only (hash m) h = h
incr-numbers_only (whole n) h = refl

incr-number :
    (e : Entry)
    → numbers_only e ≡ true
    → number_of (incr_entry e).1 ≡ some (suc (or_zero 0 (number_of e)))
incr-number gone h = refl
incr-number (texts xs) h = cc
incr-number (hash m) h = cc
incr-number (whole n) h = refl

pub text_of_lem :
    (e : Entry)
    → numbers_only e ≡ true
    → (text_of e >>= λ text. typed.uint64 text) ≡ or_missing (number_of e)
text_of_lem gone h = refl
text_of_lem (texts xs) h = cc
text_of_lem (hash m) h = cc
text_of_lem (whole n) h = ap ok (text-number n)

pub typed-items-rpush :
    (key text other : String) (s : GoMap Entry)
    → lists_only (at key s) ≡ true
    → items_of (at other (upon key (rpush_entry text) s).1)
      ≡ (if key == other then items_of (at key s) ++ text ∷ [] else items_of (at other s))
typed-items-rpush key text other s is =
    ground (
      arith,
      at-upon items_of key (rpush_entry text) other s,
      (rpush_entry_lem text (at key s) is).1,
    )

pub typed-items-lpop :
    (key other : String) (s : GoMap Entry)
    → items_of (at other (upon key lpop_entry s).1)
      ≡ (if key == other then drop 1 (items_of (at key s)) else items_of (at other s))
typed-items-lpop key other s =
    ground (arith, at-upon items_of key lpop_entry other s, lpop-items (at key s))

pub typed-incr-counts :
    (key other : String) (s : GoMap Entry)
    → numbers_only (at other s) ≡ true
    → numbers_only (at other (upon key incr_entry s).1) ≡ true
typed-incr-counts key other s h = ground (
  arith,
  at-upon numbers_only key incr_entry other s,
  incr-numbers_only (at key s),
  eq_iff key other,
)

pub typed-incr-number :
    (key : String) (s : GoMap Entry)
    → numbers_only (at key s) ≡ true
    → number_of (at key (upon key incr_entry s).1) ≡ some (suc (or_zero 0 (number_of (at key s))))
typed-incr-number key s h =
    ground (arith, at-upon number_of key incr_entry key s, incr-number (at key s) h, eq_refl key)

abbrev pub typed_lists : Lists typed
typed_lists = record {
  items = λ s key. items_of (at key s);
  is_list = λ s key. lists_only (at key s);
  rpush-ok = λ key text s is. (rpush_entry_lem text (at key s) is).0;
  items-rpush = typed-items-rpush;
  is_list-rpush = λ key text other s.
      at-upon_same lists_only key (rpush_entry text) other s (rpush-lists_only text);
  llen-items = λ key s is. length_of_lem (at key s) is;
  lrange-items = λ key s is. texts_of_lem (at key s) is;
  lpop-ok = λ key s h. lpop-ok (at key s) h;
  items-lpop = typed-items-lpop;
  is_list-lpop = λ key other s. at-upon_same lists_only key lpop_entry other s lpop-lists_only;
  items-incr = λ key other s. at-upon_same items_of key incr_entry other s incr-items;
  is_list-incr = λ key other s differs. at-upon_other lists_only key incr_entry other s differs;
  del-ok = λ key s. refl;
  items-del = λ key other s. at-upon items_of key (λ e. (ok tt, gone)) other s;
  is_list-del = λ key other s. at-upon lists_only key (λ e. (ok tt, gone)) other s;
  items-set_zero = λ key other s. at-upon items_of key (λ e. (ok tt, whole 0)) other s;
  is_list-set_zero =
      λ key other s differs. at-upon_other lists_only key (λ e. (ok tt, whole 0)) other s differs;
}

abbrev pub typed_numbers : Numbers typed typed_lists
typed_numbers = record {
  number = λ s key. number_of (at key s);
  counts = λ s key. numbers_only (at key s);
  counts-rpush =
      λ key text other s differs. at-upon_other numbers_only key (rpush_entry text) other s differs;
  counts-lpop = λ key other s differs. at-upon_other numbers_only key lpop_entry other s differs;
  counts-del =
      λ key other s differs. at-upon_other numbers_only key (λ e. (ok tt, gone)) other s differs;
  counts-set_zero = λ key other s. at-upon numbers_only key (λ e. (ok tt, whole 0)) other s;
  counts-incr = typed-incr-counts;
  number-rpush =
      λ key text other s differs. at-upon_other number_of key (rpush_entry text) other s differs;
  number-lpop = λ key other s differs. at-upon_other number_of key lpop_entry other s differs;
  number-del =
      λ key other s differs. at-upon_other number_of key (λ e. (ok tt, gone)) other s differs;
  number-set_zero = λ key other s. at-upon number_of key (λ e. (ok tt, whole 0)) other s;
  number-incr = λ key s counts small. typed-incr-number key s counts;
  number-incr_other = λ key other s differs. at-upon_other number_of key incr_entry other s differs;
  get-number = λ key s counts. text_of_lem (at key s) counts;
}

abbrev pub unused : GoMap Entry
unused = []

pub unused-IsEmpty :
    (key : String)
    → has_suffix key "__counter__" ≡ false
    → (items_of (at key unused) ≡ []) × (lists_only (at key unused) ≡ true)
unfolding lookup
unused-IsEmpty key plain = (refl, refl)

pub unused-counters :
    (key : String)
    → (number_of (at (counter_key key) unused) ≡ none)
      × (numbers_only (at (counter_key key) unused) ≡ true)
unfolding lookup
unused-counters key = (refl, refl)
