-- ===== src/Sage/Tests.antt =====
-- The boardroom server over the store in memory, with one account.
use Prim.Native.String.{String}
use aijoes_app.Prelude.{
  ℕ, ◌+◌, not, length, ◌≡◌, ◌≢◌, ◌⊎◌, refl, true, false, none, some, List, [], ◌∷◌, ltb, In, ◌↔◌,
  if◌then◌else◌, arith, same_text, same_text_iff, lookup, insert, delete,
}
use aijoes_app.Sage.Store.{Store, IsStore, Write, puts, removes, state_of, table_of}
use aijoes_app.Sage.Store.Memory.{Data, memory_store, get, put, list, remove, list_by_row}
use aijoes_app.Sage.Store.Memory.Refines.{memory_laws, memory_store-Refines}
use aijoes_app.Sage.Accounts.{
  Account, Crypto, Document, SessionClaim, session_ms, find_account, save_account, record_session,
  session_is_live, end_all_sessions, sign_in_locked_until, record_failed_sign_in,
  clear_failed_sign_ins, lock_for_ms, throttles,
}
use aijoes_app.Sage.Net.{
  Ipv4, Ipv6, ipv4, ipv6, no_ip, ipv4_to_int, is_public_v4, is_public_v6, is_public_address,
  is_feed_url, is_local_name, ends_with, public_only_lookup,
}
use aijoes_app.Sage.Net.Ranges.{reserved, is_public_v4-reserved}
use aijoes_app.Sage.Net.Fetch.{
  Network, fetch_left, fetch_public_text, IsBounded, fetch_public_text-IsBounded,
}
use aijoes_app.Sage.Accounts.Lock.{fail_each, sign_in_locks}
use aijoes_app.Sage.Routes.{
  Signed, kept, set_to, sign_in, sign_out_everywhere, change_password, require_account, account_of,
  is_locked, with_password,
}
use aijoes_app.Sage.Routes.SignIn.{sign_in-require_account, sign_in-refused}
use aijoes_app.Sage.Routes.Password.{change_password-ends}

abbrev crypto : Crypto
crypto = record {
  Token = SessionClaim;
  address_hash = λ t. t;
  session_hash = λ t. t;
  seal = λ c. c;
  unseal = λ c. some c;
  encrypt = λ t. t;
  decrypt = λ t. some t;
  hash_password = λ t. t;
  verify_password = same_text;
}

abbrev memory : Store Document
memory = memory_store Document

abbrev laws : IsStore memory
laws = memory_laws Document

abbrev ann : Account
ann = record {
  id = "7";
  email = "ann@example.org";
  name = "Ann";
  password_hash = "correct horse";
  created_at = 1;
}

-- The account, and the failed sign-in of another address.
abbrev state : Data Document
state = save_account crypto memory ann (record_failed_sign_in crypto memory "bob@example.org" 5 [])

state-IsValid : laws.IsValid state
unfolding save_account record_failed_sign_in
state-IsValid = laws.put-IsValid _ _ _ _ (laws.put-IsValid _ _ _ _ laws.empty-IsValid)

s1_ne_s2 : ◌≢◌ {A = String} "s1" "s2"
s1_ne_s2 = ground (arith, same_text_iff "s1" "s2")

abbrev later : List ℕ
later = 2 ∷ 3 ∷ 4 ∷ 5 ∷ 6 ∷ 7 ∷ 8 ∷ 9 ∷ []

abbrev nine : Data Document
nine = fail_each crypto memory laws ann.email (1 ∷ later) state

abbrev ten : Data Document
ten = record_failed_sign_in crypto memory ann.email 10 nine

sign_in_locks_example :
    (sign_in_locked_until crypto memory ann.email 11 nine ≡ none)
    × (sign_in_locked_until crypto memory ann.email 11 ten
        ≡ (if ltb 11 (10 + lock_for_ms) then some (10 + lock_for_ms) else none))
    × (sign_in_locked_until crypto memory ann.email 11 (
          record_failed_sign_in crypto memory ann.email 10
            (clear_failed_sign_ins crypto memory ann.email nine))
        ≡ none)
unfolding save_account record_failed_sign_in get put lookup insert
sign_in_locks_example =
    sign_in_locks crypto memory laws ann.email 1 10 later state refl refl
      (
        omega arith,
        (
          omega arith,
          (
            omega arith,
            (omega arith, (omega arith, (omega arith, (omega arith, (omega arith, tt))))),
          ),
        ),
      )
      (omega arith) 11

sign_in-require_account_example :
    (value : SessionClaim) × (signed : Signed) × ((sign_in crypto memory
        (some ann.email)
        "correct horse"
        "s1"
        10
        state).0
      ≡ record { status = 200; cookie = set_to value; body = some ann })
    × (require_account crypto memory
          (some value)
          20
          (sign_in crypto memory (some ann.email) "correct horse" "s1" 10 state).1
        ≡ some signed)
    × (signed.me ≡ ann)
unfolding sign_in_locked_until save_account record_failed_sign_in find_account get put lookup insert
sign_in-require_account_example =
    sign_in-require_account crypto memory laws (λ c. refl) ann "correct horse" "s1" 10 20 state refl
      refl refl (omega arith)

sign_in-refused_example :
    (((sign_in crypto memory (some ann.email) "horse" "s1" 10 state).0.status ≡ 200)
      × ((a : Account) × (account_of crypto memory (some ann.email) state ≡ some a)
          × (same_text "horse" a.password_hash ≡ true)
          × (is_locked crypto memory (some ann.email) 10 state ≡ false)))
    ⊎ (((sign_in crypto memory (some ann.email) "horse" "s1" 10 state).0.cookie ≡ kept)
        × ((p r : String)
            → throttles ≢ p
            → get p r (sign_in crypto memory (some ann.email) "horse" "s1" 10 state).1
              ≡ get p r state)
        × ((((sign_in crypto memory (some ann.email) "horse" "s1" 10 state).0.status ≡ 429)
              × (is_locked crypto memory (some ann.email) 10 state ≡ true)
              × ((sign_in crypto memory (some ann.email) "horse" "s1" 10 state).1 ≡ state))
            ⊎ (((sign_in crypto memory (some ann.email) "horse" "s1" 10 state).0.status ≡ 401)
                × (is_locked crypto memory (some ann.email) 10 state ≡ false))))
sign_in-refused_example = sign_in-refused crypto memory laws (some ann.email) "horse" "s1" 10 state

abbrev cookie : SessionClaim
cookie = record { k = "a-ann@example.org"; s = "s2"; exp = 10 + session_ms }

abbrev signed_in : Signed
signed_in = record { me = ann; claim = cookie }

-- Signed in with the session s2.
abbrev in_session : Data Document
in_session = record_session crypto memory ann "s2" (10 + session_ms) 10 state

in_session-IsValid : laws.IsValid in_session
unfolding record_session
in_session-IsValid = laws.put-IsValid _ _ _ _ state-IsValid

in_session_taken : require_account crypto memory (some cookie) 20 in_session ≡ some signed_in
unfolding require_account session_is_live record_session save_account record_failed_sign_in
    find_account get put lookup insert
in_session_taken = refl

change_password-ends_example :
    (value : SessionClaim) × (again : Signed) × ((change_password crypto memory
        (some cookie)
        "correct horse"
        "battery"
        true
        "s1"
        20
        in_session).0
      ≡ record { status = 200; cookie = set_to value; body = none })
    × (require_account crypto memory
          (some value)
          30
          (change_password crypto memory
            (some cookie)
            "correct horse"
            "battery"
            true
            "s1"
            20
            in_session).1
        ≡ some again)
    × (again.me ≡ with_password crypto memory "battery" ann)
    × (session_is_live crypto memory
          (with_password crypto memory "battery" ann)
          "s2"
          30
          (change_password crypto memory
            (some cookie)
            "correct horse"
            "battery"
            true
            "s1"
            20
            in_session).1
        ≡ false)
change_password-ends_example =
    change_password-ends crypto memory laws (λ c. refl) (some cookie) "correct horse" "battery" "s1"
      "s2" 20 30 in_session signed_in in_session-IsValid in_session_taken refl (omega arith)
      s1_ne_s2

abbrev writes : List (Write ℕ)
writes = removes "a" "x" ∷ puts "a" "y" 2 ∷ puts "a" "x" 1 ∷ []

memory_store-Refines_example :
    (get "a" "y" (state_of (memory_store ℕ) [] writes) ≡ table_of writes "a" "y")
    × (In ("y", 2) (list "a" (state_of (memory_store ℕ) [] writes))
        ↔ (table_of writes "a" "y" ≡ some 2))
    × (In ("a", 2) (list_by_row "y" (state_of (memory_store ℕ) [] writes))
        ↔ (table_of writes "a" "y" ≡ some 2))
memory_store-Refines_example = memory_store-Refines ℕ writes "a" "y" 2

abbrev bob : Account
bob = record {
  id = "8";
  email = "bob@example.org";
  name = "Bob";
  password_hash = "staple";
  created_at = 2;
}

abbrev cookie_of_bob : SessionClaim
cookie_of_bob = record { k = "a-bob@example.org"; s = "s3"; exp = 10 + session_ms }

abbrev bob_signed_in : Signed
bob_signed_in = record { me = bob; claim = cookie_of_bob }

-- Both are signed in.
abbrev both : Data Document
both =
    record_session crypto memory bob "s3" (10 + session_ms) 10
      (save_account crypto memory bob in_session)

both-IsValid : laws.IsValid both
unfolding record_session save_account
both-IsValid = laws.put-IsValid _ _ _ _ (laws.put-IsValid _ _ _ _ in_session-IsValid)

both_taken :
    (require_account crypto memory (some cookie) 20 both ≡ some signed_in)
    × (require_account crypto memory
          (some cookie_of_bob)
          30
          (sign_out_everywhere crypto memory (some cookie) 20 both).1
        ≡ some bob_signed_in)
unfolding sign_out_everywhere end_all_sessions require_account session_is_live record_session
    save_account record_failed_sign_in find_account get put list remove lookup insert delete
both_taken = (refl, refl)

classified :
    (is_public_address (ipv4 (record { a = 169; b = 254; c = 169; d = 254 })) ≡ false)
    × (is_public_address (ipv4 (record { a = 93; b = 184; c = 216; d = 34 })) ≡ true)
    × (is_public_address
          (ipv6 (record { g0 = 0; g1 = 0; g2 = 0; g3 = 0; g4 = 0; g5 = 65535; g6 = 2560; g7 = 1 }))
        ≡ false)
unfolding is_public_address is_public_v4 is_public_v6 ipv4_to_int
classified = (refl, refl, refl)

abbrev shared : Ipv4
shared = record { a = 100; b = 100; c = 1; d = 2 }

is_public_v4-reserved_example : is_public_v4 shared ≡ not (reserved shared)
is_public_v4-reserved_example =
    is_public_v4-reserved shared (omega arith, omega arith, omega arith, omega arith)

-- 6to4 of 93.184.216.34.
abbrev six_to_four : Ipv6
six_to_four = record { g0 = 8194; g1 = 23992; g2 = 55330; g3 = 0; g4 = 0; g5 = 0; g6 = 0; g7 = 1 }

six_to_four_public : is_public_v6 six_to_four ≡ true
unfolding is_public_v6 is_public_v4 ipv4_to_int
six_to_four_public = refl

-- A server that redirects for ever.
abbrev network : Network
network = record {
  parse = λ raw. some (record {
    protocol = "https:";
    username = "";
    password = "";
    port = "";
    hostname = raw;
    address = no_ip;
  });
  resolve_location = λ location url. location;
  resolve_name = λ name. ipv4 (record { a = 93; b = 184; c = 216; d = 34 }) ∷ [];
  answer = λ url address. record { status = 302; location = some "feeds.example.org"; body = 1 };
}

fetch_public_text-IsBounded_example :
    IsBounded network 4 (fetch_public_text network "feeds.example.org")
fetch_public_text-IsBounded_example = fetch_public_text-IsBounded network "feeds.example.org"

four_requests : length (fetch_public_text network "feeds.example.org").1 ≡ 4
unfolding fetch_public_text fetch_left is_feed_url is_public_address is_local_name ends_with
    public_only_lookup is_public_v4 ipv4_to_int
four_requests = refl
