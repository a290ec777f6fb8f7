-- ===== src/Sage/Net/Fetch.antt =====
-- `fetchPublicText` of sage-halpin/server/net.ts: which addresses it connects to, over all redirects.
-- The body is the number of its text; the bound on its size and the time-out are left out.
use Prim.Native.String.{String}
use aijoes_app.Prelude.{
  ℕ, zero, suc, ◌≤◌, Bool, true, ◌&&◌, ◌≡◌, refl, ap, ◌∙◌, sym, inl, inr, Option, none, some, List,
  [], ◌∷◌, all, find?-eq_some, length, All, arith, Bool-cases, Option-cases, if◌then◌else◌, leb,
  ltb,
}
use aijoes_app.Sage.Net.{Address, Url, is_ip, is_feed_url, is_public_address, public_only_lookup}

-- What a server answers: a status, a location if there is one, and a body.
pub record Answer : Type 0 where
  pub status : ℕ
  pub location : Option String
  pub body : ℕ

-- `new URL(raw)` and `new URL(location, url)`, what a name resolves to, and what the server at an
-- address answers to a request.
pub record Network : Type 0 where
  pub parse : String → Option Url
  pub resolve_location : String → Url → String
  pub resolve_name : String → List Address
  pub answer : Url → Address → Answer

-- A request that was made: its URL and the address that it was sent to.
pub record Visit : Type 0 where
  pub url : Url
  pub address : Address

abbrev pub max_redirects : ℕ
max_redirects = 3

-- An address in the place of a name is not looked up.
abbrev pub connected : List Address → Url → Option Address
connected addresses url =
    if is_ip url.address then some url.address else public_only_lookup addresses

abbrev pub is_redirect : Answer → Bool
is_redirect a = leb 300 a.status && ltb a.status 400

abbrev pub Fetched : Type 0
Fetched = Option ℕ × List Visit

module _ (network : Network) where
  open network use {parse, resolve_location, resolve_name, answer}

  -- A body where the status is one of success, and the redirect where there is one.
  abbrev pub follow : (String → Fetched) → Url → Answer → Option String → Fetched
  follow again url a none = (if leb 200 a.status && ltb a.status 300 then some a.body else none, [])
  follow again url a (some location) =
      let rest = again (resolve_location location url) in
      if is_redirect a
      then rest
      else (if leb 200 a.status && ltb a.status 300 then some a.body else none, [])

  abbrev pub visit : (String → Fetched) → Url → Option Address → Fetched
  visit again url none = (none, [])
  visit again url (some address) =
      let a = answer url address in
      let (body, visits) = follow again url a a.location in
      (body, record { url = url; address = address } ∷ visits)

  abbrev pub checked : (String → Fetched) → Option Url → Fetched
  checked again none = (none, [])
  checked again (some url) =
      let sent = visit again url (connected (resolve_name url.hostname) url) in
      if is_feed_url url then sent else (none, [])

  -- The redirects that are left, and the requests that were made, in their order.
  unfoldable pub fetch_left : ℕ → String → Fetched
  fetch_left zero raw = checked (λ target. (none, [])) (parse raw)
  fetch_left (suc left) raw = checked (fetch_left left) (parse raw)

  unfoldable pub fetch_public_text : String → Fetched
  fetch_public_text raw = fetch_left max_redirects raw

  -- A request for a URL that passes the checks, sent to a public address.
  abbrev pub IsSafe : Visit → Type 0
  IsSafe v = (is_feed_url v.url ≡ true) × (is_public_address v.address ≡ true)

  abbrev pub IsBounded : ℕ → Fetched → Type 0
  IsBounded n f = All IsSafe f.1 × (length f.1 ≤ n)

  literal_public :
      (url : Url)
      → is_ip url.address ≡ true
      → is_feed_url url ≡ true
      → is_public_address url.address ≡ true
  unfolding is_feed_url
  literal_public url e ok = ground arith

  public_only_lookup-public :
      (addresses : List Address) (address : Address)
      → public_only_lookup addresses ≡ some address
      → is_public_address address ≡ true
  unfolding public_only_lookup
  public_only_lookup-public addresses address is =
      elim (Bool-cases (all is_public_address addresses)) [
        | inl e ↦ (find?-eq_some is_public_address address addresses (sym (rw e refl) ∙ is)).1
        | inr e ↦ absurd (none_some (sym (rw e refl) ∙ is))
      ]
    where
      none_some : none ≡ some address → ⊥
      none_some q = cc

  connected-public :
      (url : Url) (addresses : List Address) (address : Address)
      → is_feed_url url ≡ true
      → connected addresses url ≡ some address
      → is_public_address address ≡ true
  connected-public url addresses address ok is = elim (Bool-cases (is_ip url.address)) [
    | inl e ↦
        let own : some url.address ≡ some address = sym (rw e refl) ∙ is in
        ap is_public_address (sym (some_inj url.address address own)) ∙ literal_public url e ok
    | inr e ↦ public_only_lookup-public addresses address (sym (rw e refl) ∙ is)
  ]
    where
      some_inj : (x y : Address) → some x ≡ some y → x ≡ y
      some_inj x y q = cc

  follow-IsBounded :
      (again : String → Fetched) (n : ℕ) (url : Url) (a : Answer) (location : Option String)
      → ((target : String) → IsBounded n (again target))
      → IsBounded n (follow again url a location)
  follow-IsBounded again n url a none rest = (tt, omega arith)
  follow-IsBounded again n url a (some location) rest = elim (Bool-cases (is_redirect a)) [
    | inl e ↦ rw e (rest (resolve_location location url))
    | inr e ↦ rw e (tt, omega arith)
  ]

  visit-IsBounded :
      (again : String → Fetched) (n : ℕ) (url : Url)
      → ((target : String) → IsBounded n (again target))
      → is_feed_url url ≡ true
      → IsBounded (suc n) (visit again url (connected (resolve_name url.hostname) url))
  visit-IsBounded again n url rest ok =
      elim (Option-cases (connected (resolve_name url.hostname) url)) [
        | inl e ↦ rw e (tt, omega arith)
        | inr (address, e) ↦
            let a = answer url address in
            let (safe, few) = follow-IsBounded again n url a a.location rest in
            rw e (
              ((ok, connected-public url (resolve_name url.hostname) address ok e), safe),
              omega arith,
            )
      ]

  checked-IsBounded :
      (again : String → Fetched) (n : ℕ) (o : Option Url)
      → ((target : String) → IsBounded n (again target))
      → IsBounded (suc n) (checked again o)
  checked-IsBounded again n none rest = (tt, omega arith)
  checked-IsBounded again n (some url) rest = elim (Bool-cases (is_feed_url url)) [
    | inr e ↦ rw e (tt, omega arith)
    | inl e ↦ rw e (visit-IsBounded again n url rest e)
  ]

  fetch_left-IsBounded : (left : ℕ) (raw : String) → IsBounded (suc left) (fetch_left left raw)
  unfolding fetch_left
  fetch_left-IsBounded zero raw =
      checked-IsBounded (λ target. (none, [])) 0 (parse raw) (λ target. (tt, omega arith))
  fetch_left-IsBounded (suc left) raw =
      checked-IsBounded (fetch_left left) (suc left) (parse raw) (fetch_left-IsBounded left)

  -- Whatever names resolve to and servers answer, a feed is fetched with at most four requests, and
  -- each of them, redirects included, is for a URL that passes the checks and goes to a public
  -- address.
  pub fetch_public_text-IsBounded : (raw : String) → IsBounded 4 (fetch_public_text raw)
  unfolding fetch_public_text
  fetch_public_text-IsBounded raw = fetch_left-IsBounded 3 raw
