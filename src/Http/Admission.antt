-- ===== src/Http/Admission.antt =====
-- server/src/http: which requests reach a route under `/api`.
use cargo_execution_assistan.Prelude.{
  ℕ, ◌≡◌, refl, sym, ap, ◌∙◌, ◌⊎◌, inl, inr, true, false, Option, none, some, List, [], ◌∷◌, ok,
  >>=-eq-ok, ok_inj, arith, Bool-cases, Option-cases, is_some,
}
use cargo_execution_assistan.Text.{Text}
use cargo_execution_assistan.Text.Laws.{text_eq_sound}
use cargo_execution_assistan.Text.Encoding.{utf8}
use cargo_execution_assistan.Text.Map.{get}
use cargo_execution_assistan.Database.{Database}
use cargo_execution_assistan.Sessions.{Crypto}
use cargo_execution_assistan.Sessions.Load.{
  LoadedSession, LoadOutcome, valid, absent, expired_session, revoked, inactive,
  load_session_by_token,
}
use cargo_execution_assistan.Http.{WebRuntime, HttpRequest, RequestContext}
use cargo_execution_assistan.Http.Cookies.{parse_cookies, session_cookie_name}
use cargo_execution_assistan.Http.Paths.{is_state_changing, is_implemented_state_changing}
use cargo_execution_assistan.Http.Guards.{
  Readings, anonymous, context_of, resolve_outcome, resolve, is_api_path, is_exempt,
  require_api_auth, compare_digests, check_token, csrf_check, admit,
}

module _ (crypto : Crypto) (runtime : WebRuntime) (at : Readings) (request : HttpRequest)
    (db : Database) where
  -- The cookie's token resolves to a valid session, which the context is of.
  abbrev pub IsFrom : RequestContext → LoadedSession → Type 0
  IsFrom context s =
      (token : Text) × (get session_cookie_name (parse_cookies runtime request.cookie) ≡ some token)
      × (load_session_by_token crypto token at.loaded_at db ≡ valid s)
      × (context ≡ context_of s)

  resolve-cases :
      ((resolve crypto runtime at request db).0 ≡ anonymous)
      ⊎ ((s : LoadedSession) × IsFrom (resolve crypto runtime at request db).0 s)
  unfolding resolve
  resolve-cases =
      elim (Option-cases (get session_cookie_name (parse_cookies runtime request.cookie))) [
        | inl e ↦ inl (rw (e, resolve) refl)
        | inr ([], e) ↦ inl (rw (e, resolve) refl)
        | inr (c ∷ token, e) ↦ elim (loads (c ∷ token)) [
          | inl nobody ↦ inl (rw (e, resolve) nobody)
          | inr (s, loaded, same) ↦ inr (s, (c ∷ token, e, loaded, rw (e, resolve) same))
        ]
      ]
    where
      loads :
          (token : Text)
          → let outcome = load_session_by_token crypto token at.loaded_at db in
            ((resolve_outcome crypto token at db outcome).0 ≡ anonymous)
            ⊎ ((s : LoadedSession) × (outcome ≡ valid s)
                × ((resolve_outcome crypto token at db outcome).0 ≡ context_of s))
      loads token = by_outcome (load_session_by_token crypto token at.loaded_at db)
        where
          by_outcome :
              (outcome : LoadOutcome)
              → ((resolve_outcome crypto token at db outcome).0 ≡ anonymous)
                ⊎ ((s : LoadedSession) × (outcome ≡ valid s)
                    × ((resolve_outcome crypto token at db outcome).0 ≡ context_of s))
          by_outcome (valid s) = inr (s, refl, refl)
          by_outcome absent = inl refl
          by_outcome expired_session = inl refl
          by_outcome revoked = inl refl
          by_outcome inactive = inl refl

  -- The header of the request hashes to the digest of the session.
  abbrev pub HasToken : LoadedSession → Type 0
  HasToken s =
      (header : Text) × (request.csrf_header ≡ some header)
      × (crypto.sha256 (utf8 header) ≡ s.csrf_token_hash)

  require_api_auth-ok :
      (context : RequestContext) (u : Unit {0})
      → is_api_path request.path ≡ true
      → is_exempt (runtime.to_upper request.method) request.path ≡ false
      → require_api_auth runtime request context ≡ ok u
      → is_some context.principal ≡ true
  unfolding require_api_auth
  require_api_auth-ok context u api other h = elim (Bool-cases (is_some context.principal)) [
    | inl e ↦ e
    | inr e ↦
        let h' =
          rw (e, require_api_auth) at
            (rw (other, require_api_auth) at (rw (api, require_api_auth) at h)) in
        cc
  ]

  -- What the CSRF check lets through.
  csrf_check-ok :
      (context : RequestContext) (u : Unit {0})
      → is_exempt (runtime.to_upper request.method) request.path ≡ false
      → csrf_check crypto runtime request context ≡ ok u
      → (is_state_changing (runtime.to_upper request.method) ≡ false)
        ⊎ (is_implemented_state_changing runtime (runtime.to_upper request.method) request.path
            ≡ false)
        ⊎ ((stored : List ℕ) × (header : Text) × (context.csrf_token_hash ≡ some stored)
            × (request.csrf_header ≡ some header)
            × (crypto.sha256 (utf8 header) ≡ stored))
  unfolding csrf_check
  csrf_check-ok context u other h =
      elim (Bool-cases (is_state_changing (runtime.to_upper request.method))) [
        | inr e ↦ inl e
        | inl changing ↦
            elim (Bool-cases (
              is_implemented_state_changing runtime (runtime.to_upper request.method)
                request.path)) [
                  | inr e ↦ inr (inl e)
                  | inl known ↦ inr (
                      inr (
                        checked context.csrf_token_hash request.csrf_header (
                          rw (known, csrf_check) at
                            (rw (other, csrf_check) at (rw (changing, csrf_check) at h)))))
                ]
      ]
    where
      digests :
          (presented stored : List ℕ) → compare_digests presented stored ≡ ok u → presented ≡ stored
      digests presented stored h = text_eq_sound presented stored (ground arith)

      checked :
          (digest : Option (List ℕ)) (header : Option Text)
          → check_token crypto digest header ≡ ok u
          → (stored : List ℕ) × (text : Text) × (digest ≡ some stored)
            × (header ≡ some text)
            × (crypto.sha256 (utf8 text) ≡ stored)
      checked none header h = cc
      checked (some stored) none h = cc
      checked (some stored) (some []) h = cc
      checked (some stored) (some (c ∷ text)) h = (stored, c ∷ text, refl, refl, digests _ stored h)

  -- A request under `/api` that reaches a route, other than the sign-in, carries the token of a
  -- session that was valid when it came, and acts as its specialist; where the CSRF check knows its
  -- method and path as a change of state, its header has the CSRF token of the same session.
  pub admit-IsFrom :
      (context : RequestContext) (db' : Database)
      → is_api_path request.path ≡ true
      → is_exempt (runtime.to_upper request.method) request.path ≡ false
      → admit crypto runtime at request db ≡ (ok context, db')
      → (s : LoadedSession) × IsFrom context s
        × ((is_state_changing (runtime.to_upper request.method) ≡ false)
            ⊎ (is_implemented_state_changing runtime (runtime.to_upper request.method) request.path
                ≡ false)
            ⊎ HasToken s)
  unfolding admit
  admit-IsFrom context db' api other h =
      let here = (resolve crypto runtime at request db).0 in
      let (u, auth, h1) = >>=-eq-ok (require_api_auth runtime request here) _ (ap (λ p. p.0) h) in
      let (v, csrf, h2) = >>=-eq-ok (csrf_check crypto runtime request here) _ h1 in
      let same : here ≡ context = ok_inj h2 in
      elim resolve-cases [
        | inl nobody ↦
            let known = require_api_auth-ok here u api other auth in
            let gone = rw nobody at known in cc
        | inr (s, (token, cookie, loaded, from)) ↦ (
          s,
          (token, cookie, loaded, sym same ∙ from),
          elim (csrf_check-ok here v other csrf) [
            | inl e ↦ inl e
            | inr (inl e) ↦ inr (inl e)
            | inr (inr (stored, header, digest, sent, hashed)) ↦
                let stored_eq : some s.csrf_token_hash ≡ some stored =
                  sym (ap (λ c. c.csrf_token_hash) from) ∙ digest in
                inr (inr (header, sent, cc))
          ],
        )
      ]
