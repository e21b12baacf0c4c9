-- ===== src/Mandate/Fetches.antt =====
-- The revocation check of concordia/mandate.py: what it opens, and when it clears a mandate.
use concordia_protocol.Prelude.{
  ℕ, ◌*◌, ◌≤◌, String, Bool, true, false, not, ◌||◌, ◌≡◌, refl, sym, ◌∙◌, ap, ◌⊎◌, inl, inr, Option,
  none, some, inj_some, List, [], ◌∷◌, arith, str_eq, str_truthy, eq_iff, ltb, if◌then◌else◌, All,
  Bool-cases, Option-cases, Result, ok, err, ◌>>=◌, ◌>>◌, guard, inj_ok, err_ok,
}
use mathlib.Core.Path.{subst}
use concordia_protocol.Closure.{Value}
use concordia_protocol.Mandate.Endpoint.{
  Net, Flags, IpAddress, v4, v6, Checked, first_some, or_own, unwrapped, ask_endpoint, SplitUrl,
  Fetched, redirected, unreachable, broken, answered, Raised, Refusal, endpoint_error, uncaught,
  ip_is_disallowed, max_revocation_response_bytes, present_host, port_or_443, resolved_addresses,
  check_address, check_addresses, check_host, check_url, validate_revocation_endpoint, in_value,
  revoked_ids, read_answer, read_fetched, after_guard, check_revocation,
}

then_ok :
    {E A B : Type 0} (x : Result E A) (then_do : A → Result E B) (b : B)
    → (x >>= then_do) ≡ ok b
    → (a : A) × (x ≡ ok a) × (then_do a ≡ ok b)
then_ok (ok a) then_do b h = (a, refl, h)
then_ok (err e) then_do b h = err_ok h

and_ok :
    {E A B : Type 0} (x : Result E A) (y : Result E B) (b : B)
    → (x >> y) ≡ ok b
    → (a : A) × (x ≡ ok a) × (y ≡ ok b)
and_ok (ok a) y b h = (a, refl, h)
and_ok (err e) y b h = err_ok h

guard_ok : {E : Type 0} (b : Bool) (e : E) → guard b e ≡ ok tt → b ≡ true
guard_ok true e h = refl
guard_ok false e h = err_ok h

not-true : (b : Bool) → not b ≡ true → b ≡ false
not-true true h = absurd (ground (arith, h))
not-true false h = refl

-- None of the six classes of addresses that a fetch must not reach.
abbrev pub Open : Flags → Type 0
Open f =
    (f.is_private ≡ false)
    × (f.is_loopback ≡ false)
    × (f.is_link_local ≡ false)
    × (f.is_multicast ≡ false)
    × (f.is_reserved ≡ false)
    × (f.is_unspecified ≡ false)

-- The address, or the first that an address of version 6 holds of the mapped, the 6to4 and the Teredo
-- one of version 4, is open.
abbrev pub Reachable : IpAddress → Type 0
Reachable (v4 f) = Open f
Reachable (v6 (some f) sixtofour teredo own) = Open f
Reachable (v6 none (some f) teredo own) = Open f
Reachable (v6 none none (some f) own) = Open f
Reachable (v6 none none none own) = Open own

all-Open :
    (f : Flags)
    → (f.is_private || f.is_loopback || f.is_link_local || f.is_multicast || f.is_reserved
        || f.is_unspecified)
      ≡ false
    → Open f
all-Open f h = (
  ground (arith, h),
  ground (arith, h),
  ground (arith, h),
  ground (arith, h),
  ground (arith, h),
  ground (arith, h),
)

allowed-Reachable : (ip : IpAddress) → ip_is_disallowed ip ≡ false → Reachable ip
unfolding ip_is_disallowed unwrapped first_some or_own
allowed-Reachable (v4 f) h = all-Open f h
allowed-Reachable (v6 (some f) sixtofour teredo own) h = all-Open f h
allowed-Reachable (v6 none (some f) teredo own) h = all-Open f h
allowed-Reachable (v6 none none (some f) own) h = all-Open f h
allowed-Reachable (v6 none none none own) h = all-Open own h

passed-Reachable :
    (ip : IpAddress)
    → ◌≡◌ {A = Result Refusal (Unit {0})} (guard (not (ip_is_disallowed ip)) endpoint_error) (ok tt)
    → Reachable ip
passed-Reachable ip h =
    allowed-Reachable ip (not-true (ip_is_disallowed ip) (guard_ok _ endpoint_error h))

module _ {Num : Type 0} (N : Net Num) where
  -- A text that is an address, which may be reached.
  abbrev pub IsPublic : String → Type 0
  IsPublic addr = (ip : IpAddress) × (N.ip_address addr ≡ some ip) × Reachable ip

  -- A host that is a public address, or a name that resolves, on some port, to public addresses only.
  abbrev pub HostIsPublic : String → Type 0
  HostIsPublic host =
      IsPublic host
      ⊎ ((port : ℕ) × (addrs : List String) × (N.getaddrinfo host port ≡ some addrs)
          × All IsPublic addrs)

  abbrev pub EndpointIsPublic : String → Type 0
  EndpointIsPublic endpoint =
      (url : SplitUrl) × (hostname : String) × (N.urlsplit endpoint ≡ some url)
      × (url.scheme ≡ "https")
      × (url.hostname ≡ some hostname)
      × HostIsPublic (N.rstrip_dots hostname)

  address-IsPublic : (addr : String) → check_address N addr ≡ ok tt → IsPublic addr
  unfolding check_address
  address-IsPublic addr h = elim (Option-cases (N.ip_address addr)) [
    | inl strange ↦ absurd (ground (arith, strange, h))
    | inr (ip, known) ↦ (
      ip,
      known,
      passed-Reachable ip (
          (subst
            (λ o.
              (elim o [
                | none ↦ err endpoint_error
                | some p ↦ guard (not (ip_is_disallowed p)) endpoint_error
              ])
              ≡ ok tt)
            known h)),
    )
  ]

  addresses-IsPublic : (addrs : List String) → check_addresses N addrs ≡ ok tt → All IsPublic addrs
  unfolding check_addresses
  addresses-IsPublic [] h = tt
  addresses-IsPublic (a ∷ addrs) h =
      let (u, first, rest) = and_ok (check_address N a) (check_addresses N addrs) tt h in
      (address-IsPublic a first, addresses-IsPublic addrs rest)

  resolved_addresses_ok :
      (o : Option (List String)) (addrs : List String)
      → resolved_addresses o ≡ ok addrs
      → o ≡ some addrs
  unfolding resolved_addresses
  resolved_addresses_ok none addrs h = err_ok h
  resolved_addresses_ok (some []) addrs h = err_ok h
  resolved_addresses_ok (some (a ∷ more)) addrs h = ap some (inj_ok h)

  present_ok : (o : Option String) (host : String) → present_host o ≡ ok host → o ≡ some host
  unfolding present_host
  present_ok none host h = err_ok h
  present_ok (some s) host h = elim (Bool-cases (str_truthy s)) [
    | inl full ↦ ground (arith, full, h)
    | inr empty ↦ absurd (ground (arith, empty, h))
  ]

  host_public : (url : SplitUrl) (host : String) → check_host N url host ≡ ok tt → HostIsPublic host
  unfolding check_host
  host_public url host h = elim (Option-cases (N.ip_address host)) [
    | inr (ip, literal) ↦
        let passed : guard (not (ip_is_disallowed ip)) endpoint_error ≡ ok tt =
          subst
            (λ o.
              (elim o [
                | some p ↦ guard (not (ip_is_disallowed p)) endpoint_error
                | none ↦
                    (port_or_443 url.port >>= λ port.
                    resolved_addresses (N.getaddrinfo host port) >>= λ addrs.
                    check_addresses N addrs)
              ])
              ≡ ok tt)
            literal h in
        inl (ip, literal, passed-Reachable ip passed)
    | inl named ↦
        let looked : (port_or_443 url.port >>= λ port.
        resolved_addresses (N.getaddrinfo host port) >>= λ addrs. check_addresses N addrs)
            ≡ ok tt =
          subst
            (λ o.
              (elim o [
                | some p ↦ guard (not (ip_is_disallowed p)) endpoint_error
                | none ↦
                    (port_or_443 url.port >>= λ port.
                    resolved_addresses (N.getaddrinfo host port) >>= λ addrs.
                    check_addresses N addrs)
              ])
              ≡ ok tt)
            named h in
        let (port, p, after) = then_ok (port_or_443 url.port) _ tt looked in
        let (addrs, a, checked) =
          then_ok (resolved_addresses (N.getaddrinfo host port)) _ tt after in
        inr (port, addrs, resolved_addresses_ok _ addrs a, addresses-IsPublic addrs checked)
  ]

  url_public :
      (o : Option SplitUrl)
      → check_url N o ≡ ok tt
      → (url : SplitUrl) × (hostname : String) × (o ≡ some url)
        × (url.scheme ≡ "https")
        × (url.hostname ≡ some hostname)
        × HostIsPublic (N.rstrip_dots hostname)
  unfolding check_url
  url_public none h = err_ok h
  url_public (some url) h =
      let (hostname, first, rest) =
        then_ok (guard (str_eq url.scheme "https") endpoint_error >> present_host url.hostname) _ tt
          h in
      let (u, secure, present) =
        and_ok (guard (str_eq url.scheme "https") endpoint_error) _ hostname first in
      let (host, named, checked) =
        then_ok (present_host (some (N.rstrip_dots hostname))) _ tt rest in
      (
        url,
        hostname,
        refl,
        (eq_iff url.scheme "https").0 (guard_ok (str_eq url.scheme "https") endpoint_error secure),
        present_ok url.hostname hostname present,
        subst HostIsPublic (sym (inj_some (present_ok (some (N.rstrip_dots hostname)) host named)))
            (host_public url host checked),
      )

  -- The answer is not too large, and the identifier is not in the list it gives.
  abbrev pub Clears : String → Fetched Num → Type 0
  Clears mandate_id fetched =
      (size : ℕ) × (v : Value Num) × (ids : Value Num) × (fetched ≡ answered size (some v))
      × (size ≤ 5 * 1024 * 1024)
      × (revoked_ids N v ≡ ok ids)
      × (in_value N mandate_id ids ≡ ok false)

  answer_clears :
      (mandate_id : String) (v : Value Num)
      → read_answer N mandate_id (some v) ≡ ok true
      → (ids : Value Num) × (revoked_ids N v ≡ ok ids) × (in_value N mandate_id ids ≡ ok false)
  unfolding read_answer
  answer_clears mandate_id v h =
      let (ids, read, rest) = then_ok (revoked_ids N v) _ true h in
      let (found, looked, last) = then_ok (in_value N mandate_id ids) _ true rest in
      (ids, read, looked ∙ ap ok (not-true found (inj_ok last)))

  fetched-Clears :
      (mandate_id : String) (f : Fetched Num)
      → read_fetched N mandate_id f ≡ ok true
      → Clears mandate_id f
  unfolding read_fetched read_answer max_revocation_response_bytes
  fetched-Clears mandate_id redirected h = absurd (ground (arith, h))
  fetched-Clears mandate_id unreachable h = absurd (ground (arith, h))
  fetched-Clears mandate_id broken h = err_ok h
  fetched-Clears mandate_id (answered size none) h = absurd (ground (arith, h))
  fetched-Clears mandate_id (answered size (some v)) h =
      elim (Bool-cases (ltb (5 * 1024 * 1024) size)) [
        | inl large ↦ absurd (ground (arith, large, h))
        | inr fits ↦
            let (ids, read, clear) = answer_clears mandate_id v (
              subst (λ b. (if b then ok false else read_answer N mandate_id (some v)) ≡ ok true)
                fits h) in
            (size, v, ids, refl, ground (arith, fits), read, clear)
      ]

  -- The check opened only the endpoint, if that is public, and where it found the mandate not
  -- revoked, it opened it and got an answer that clears it.
  abbrev pub Guarded : String → String → Checked → Type 0
  Guarded mandate_id endpoint c =
      ((c.requests ≡ []) ⊎ ((c.requests ≡ endpoint ∷ []) × EndpointIsPublic endpoint))
      × (((c.not_revoked ≡ ok false) ⊎ ((e : Raised) × (c.not_revoked ≡ err e)))
          ⊎ ((c.not_revoked ≡ ok true)
              × (c.requests ≡ endpoint ∷ [])
              × Clears mandate_id (N.fetch endpoint)))

  guarded :
      (mandate_id endpoint : String) (g : Result Refusal (Unit {0}))
      → (g ≡ ok tt → EndpointIsPublic endpoint)
      → Guarded mandate_id endpoint (after_guard N g (ask_endpoint N mandate_id endpoint))
  unfolding after_guard ask_endpoint
  guarded mandate_id endpoint (err endpoint_error) public = (inl refl, inl (inl refl))
  guarded mandate_id endpoint (err (uncaught e)) public = (inl refl, inl (inr (e, refl)))
  guarded mandate_id endpoint (ok u) public =
      let clears = fetched-Clears mandate_id (N.fetch endpoint) in
      (inr (refl, public refl), outcome (read_fetched N mandate_id (N.fetch endpoint)) clears)
    where
      outcome :
          (r : Result Raised Bool)
          → (r ≡ ok true → Clears mandate_id (N.fetch endpoint))
          → ((r ≡ ok false) ⊎ ((e : Raised) × (r ≡ err e)))
            ⊎ ((r ≡ ok true)
                × ((endpoint ∷ []) ≡ (endpoint ∷ []))
                × Clears mandate_id (N.fetch endpoint))
      outcome (err e) clears = inl (inr (e, refl))
      outcome (ok false) clears = inl (inl refl)
      outcome (ok true) clears = inr (refl, refl, clears refl)

  -- A check of a mandate's revocation that keeps the guard opens nothing, or only the endpoint, and
  -- this only if its scheme is https and its host is an address of none of the refused classes, or a
  -- name that the guard's lookup resolves to such addresses only. It finds the mandate not revoked
  -- only after an answer of at most 5 MiB with a list, or another container, that does not have the
  -- mandate's identifier. The lookup that is made again to connect is not looked at.
  pub check_revocation-Guarded :
      (mandate_id endpoint : String)
      → Guarded mandate_id endpoint (check_revocation N mandate_id endpoint false)
  unfolding check_revocation validate_revocation_endpoint
  check_revocation-Guarded mandate_id endpoint =
      guarded mandate_id endpoint (check_url N (N.urlsplit endpoint))
        (url_public (N.urlsplit endpoint))
