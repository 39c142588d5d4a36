-- ===== src/Clients/Direct/Sending.antt =====
-- When a request is sent to the direct connection.
use khulnasoft_lsp.Base.{
  ◌+◌, ◌*◌, ◌≤◌, Bool, true, false, not, [], ◌∷◌, ◌++◌, Option, none, some, ◌≡◌, refl, ◌⊎◌, inl,
  inr, arith, if_both, if_cases,
}
use khulnasoft_lsp.CircuitBreaker.Exponential.{is_open}
use khulnasoft_lsp.Clients.Requests.{SuggestionContext, create_v2_request, is_generation}
use khulnasoft_lsp.Clients.Direct.{
  ConnectionDetails, are_expired, DirectConnectionClient, begin, begin_with,
  fetch_direct_connection_details, fetch_using_direct_connection,
}

-- The direct connection may be used for a context, with these details, which are valid for 40 seconds more.
pub record IsUsable (context : SuggestionContext) (c : DirectConnectionClient)
    (dcd : ConnectionDetails) : Type 0 where
  pub completes : is_generation context.intent ≡ false
  pub valid : c.is_valid_api ≡ true
  pub shut : is_open c.direct_breaker ≡ false
  pub known : c.connection_details ≡ some dcd
  pub fresh : c.now + 40000 ≤ dcd.expires_at * 1000

-- One request is sent, with the details.
abbrev pub Sends :
    SuggestionContext
    → ConnectionDetails
    → DirectConnectionClient
    → Bool × DirectConnectionClient
    → Type 0
Sends context dcd c (begun, c') =
    (begun ≡ true)
    × (c'.sent
        ≡ c.sent
          ++ record {
            base_url = dcd.base_url;
            token = dcd.token;
            request = create_v2_request context (some dcd.model_details);
          }
            ∷ [])
    × (c'.details_requests ≡ c.details_requests)

-- Nothing is sent directly, and the details are asked for at most once.
abbrev pub Declines : DirectConnectionClient → Bool × DirectConnectionClient → Type 0
Declines c (begun, c') =
    (begun ≡ false)
    × (c'.sent ≡ c.sent)
    × (c.details_requests ≤ c'.details_requests)
    × (c'.details_requests ≤ c.details_requests + 1)

fetch-Declines :
    (c : DirectConnectionClient) → Declines c (false, fetch_direct_connection_details c)
unfolding fetch_direct_connection_details
fetch-Declines c =
    if_both (λ c'. Declines c (false, c')) (is_open c.details_breaker) _ _
      (refl, refl, omega arith, omega arith) (refl, refl, omega arith, omega arith)

expired-IsUsable :
    (context : SuggestionContext) (c : DirectConnectionClient) (dcd dcd' : ConnectionDetails)
    → c.connection_details ≡ some dcd
    → are_expired c.now dcd ≡ true
    → IsUsable context c dcd'
    → ⊥
unfolding are_expired
expired-IsUsable context c dcd dcd' k e u =
    let same : dcd' ≡ dcd = cc (u.known, k) in
    let fresh : c.now + 40000 ≤ dcd.expires_at * 1000 = rw⁻¹ same u.fresh in ground arith

-- A request for suggestions is sent to the direct connection, as it stands and with the connection details, exactly
-- if it is not for a generation, the API is in a valid state, the breaker of direct requests is closed, and there are
-- connection details that do not expire within 40 seconds. Otherwise nothing is sent there, and the details are
-- asked for once or not at all.
pub begin-Sends :
    (context : SuggestionContext) (c : DirectConnectionClient)
    → ((dcd : ConnectionDetails) × IsUsable context c dcd × Sends context dcd c (begin context c))
      ⊎ (((dcd : ConnectionDetails) → ¬ IsUsable context c dcd) × Declines c (begin context c))
unfolding begin begin_with are_expired fetch_using_direct_connection
begin-Sends context c =
    if_cases P (is_generation context.intent) _ _ (λ g. inr (λ dcd u. cc (u.completes, g), nothing))
      (λ g.
        if_cases P (not c.is_valid_api) _ _ (λ v. inr (λ dcd u. cc (u.valid, v), nothing))
          (λ v.
            if_cases P (is_open c.direct_breaker) _ _ (λ o. inr (λ dcd u. cc (u.shut, o), nothing))
              (λ o. known g v o c.connection_details refl)))
  where
    P : Bool × DirectConnectionClient → Type 0
    P r =
        ((dcd : ConnectionDetails) × IsUsable context c dcd × Sends context dcd c r)
        ⊎ (((dcd : ConnectionDetails) → ¬ IsUsable context c dcd) × Declines c r)

    nothing : Declines c (false, c)
    nothing = (refl, refl, omega arith, omega arith)

    known :
        is_generation context.intent ≡ false
        → not c.is_valid_api ≡ false
        → is_open c.direct_breaker ≡ false
        → (o : Option ConnectionDetails) → c.connection_details ≡ o
        → P (begin_with o context c)
    known g v o none n = inr (λ dcd u. cc (u.known, n), fetch-Declines c)
    known g v o (some dcd) k =
        if_cases P (are_expired c.now dcd) _ _
          (λ e. inr (λ dcd' u. expired-IsUsable context c dcd dcd' k e u, fetch-Declines c))
          (λ e. inl (
            dcd,
            record {
              completes = g;
              valid = ground arith;
              shut = o;
              known = k;
              fresh = ground arith;
            },
            (refl, refl, refl),
          ))
