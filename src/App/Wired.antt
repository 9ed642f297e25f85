-- ===== src/App/Wired.antt =====
-- Which parts of the application there are, for each configuration.
use signbyte_bff.Base.{
  String, Bool, true, false, ◌&&◌, ◌==◌, Option, none, some, ◌≡◌, refl, sym, arith, eq_iff,
  Bool-cases, inl, inr, if◌then◌else◌,
}
use signbyte_bff.Errors.{Result, ok, err, ◌>>=◌}
use signbyte_bff.App.Config.{
  AuthConfiguration, Configuration, is_set, outbound_enabled, outbound_auth_client_config,
  access_audit_enabled,
}
use signbyte_bff.App.{
  Libraries, Client, Gdpr, App, must, client_of, redis_of, outbound_of, build_gdpr_audit,
  audits_with, audits_of, wired, init,
}

bind_ok :
    {A B : Type 0} (r : Result A) (f : A → Result B) (b : B)
    → (r >>= f) ≡ ok b
    → (a : A) × (r ≡ ok a) × (f a ≡ ok b)
bind_ok (ok a) f b e = (a, refl, e)
bind_ok (err x) f b e = absurd (differ e)
  where
    differ : err x ≡ ok b → ⊥
    differ p = cc

ok_inj : {A : Type 0} {a b : A} → ◌≡◌ {A = Result A} (ok a) (ok b) → a ≡ b
ok_inj e = cc

-- The client of a collaborator that has an address.
abbrev pub configured : String → String → Option Client
configured base_url audience =
    if base_url == "" then none else some (record { base_url = base_url; audience = audience })

-- An address that is not empty is not blank either, as the validation of the settings has it.
abbrev pub IsAddress : (String → String) → String → Type 0
IsAddress trim url = trim url ≡ "" → url ≡ ""

abbrev pub HasAddresses : (String → String) → Configuration → Type 0
HasAddresses trim c =
    IsAddress trim c.document_base_url
    × IsAddress trim c.envelope_base_url
    × IsAddress trim c.signflow_base_url
    × IsAddress trim c.preview_base_url
    × IsAddress trim c.signer_base_url

module _ (lib : Libraries) (c : Configuration) where
  init_parts :
      (app : App)
      → init lib c ≡ ok app
      → (redis : Option String) × (outbound : Option AuthConfiguration) × (audits : Option Gdpr
          × Option Client)
        × (outbound_of lib c ≡ ok outbound)
        × (audits_of lib c outbound ≡ ok audits)
        × (app ≡ wired lib c redis outbound audits)
  unfolding init
  init_parts app e =
      let (u, p, e1) = bind_ok (must lib.sets_up "platform") _ app e in
      let (redis, q, e2) = bind_ok (redis_of lib c) _ app e1 in
      let (outbound, r, e3) = bind_ok (outbound_of lib c) _ app e2 in
      let (audits, t, e4) = bind_ok (audits_of lib c outbound) _ app e3 in
      (redis, outbound, audits, r, t, sym (ok_inj e4))

  outbound_lem :
      (outbound : Option AuthConfiguration)
      → outbound_of lib c ≡ ok outbound
      → outbound ≡ (
          if outbound_enabled lib.trim_space c
          then some (outbound_auth_client_config lib.trim_space c)
          else none)
  unfolding outbound_of
  outbound_lem outbound e = elim (Bool-cases (outbound_enabled lib.trim_space c)) [
    | inl p ↦ rw p (sym (built (rw p at e)))
    | inr p ↦ rw p (sym (ok_inj (rw p at e)))
  ]
    where
      built :
          (must
                (lib.new_outbound (outbound_auth_client_config lib.trim_space c))
                "outbound auth client"
              >>= λ u. ok (some (outbound_auth_client_config lib.trim_space c)))
            ≡ ok outbound
          → some (outbound_auth_client_config lib.trim_space c) ≡ outbound
      built k =
          let (u, q, k1) =
            bind_ok
              (must (lib.new_outbound (outbound_auth_client_config lib.trim_space c))
                "outbound auth client")
              (λ u. ok (some (outbound_auth_client_config lib.trim_space c))) outbound k in
          ok_inj k1

  -- The guard on the outbound client takes no client from a collaborator that has an address.
  client_lem :
      (url audience : String)
      → IsAddress lib.trim_space url
      → (is_set lib.trim_space c url ≡ true → outbound_enabled lib.trim_space c ≡ true)
      → client_of
          (if outbound_enabled lib.trim_space c
            then some (outbound_auth_client_config lib.trim_space c)
            else none)
          url
          audience
        ≡ configured url audience
  unfolding client_of
  client_lem url audience address sets = elim (Bool-cases (outbound_enabled lib.trim_space c)) [
    | inl p ↦ rw p refl
    | inr p ↦ rw p (ground (arith, p, sets, address, eq_iff url "", eq_iff (lib.trim_space url) ""))
  ]

  -- An application that started has the client of a collaborator exactly if its address is set, with this
  -- address and its audience, whatever else is set; and it has an outbound client exactly if some
  -- collaborator's address is: for addresses that are not blank.
  pub init-clients :
      (app : App)
      → HasAddresses lib.trim_space c
      → init lib c ≡ ok app
      → (app.documents ≡ configured c.document_base_url c.document_audience)
        × (app.envelope ≡ configured c.envelope_base_url c.envelope_audience)
        × (app.signflow ≡ configured c.signflow_base_url c.signflow_audience)
        × (app.preview ≡ configured c.preview_base_url c.preview_audience)
        × (app.verify ≡ configured c.signer_base_url c.signer_audience)
        × (app.outbound_client ≡ (
            if outbound_enabled lib.trim_space c
            then some (outbound_auth_client_config lib.trim_space c)
            else none))
  unfolding wired outbound_enabled
  init-clients app (d, n, g, v, q) e =
      let (redis, outbound, audits, r, t, w) = init_parts app e in
      rw (w, outbound_lem outbound r)
        (
          client_lem _ _ d (λ k. ground (arith, k)),
          client_lem _ _ n (λ k. ground (arith, k)),
          client_lem _ _ g (λ k. ground (arith, k)),
          client_lem _ _ v (λ k. ground (arith, k)),
          client_lem _ _ q (λ k. ground (arith, k)),
          refl,
        )

  -- Both recorders, or neither.
  abbrev pub AreRecording : Bool → Option Gdpr × Option Client → Type 0
  AreRecording false audits = audits ≡ (none, none)
  AreRecording true audits =
      (gc : Gdpr) × (build_gdpr_audit lib c ≡ ok gc)
      × (audits ≡ (
        some gc,
        some (record { base_url = c.access_audit_url; audience = c.access_audit_audience }),
      ))

  audits_lem :
      (audits : Option Gdpr × Option Client) (enabled outbound : Bool)
      → access_audit_enabled lib.trim_space c ≡ enabled
      → audits_of lib c
          (if outbound then some (outbound_auth_client_config lib.trim_space c) else none)
        ≡ ok audits
      → AreRecording (enabled && outbound) audits
  unfolding audits_of audits_with
  audits_lem audits false outbound p e = sym (ok_inj (rw p at e))
  audits_lem audits true false p e = sym (ok_inj (rw p at e))
  audits_lem audits true true p e =
      let (gc, q, e1) = bind_ok (build_gdpr_audit lib c) _ audits (rw p at e) in
      (gc, q, sym (ok_inj e1))

  -- An application that started records accesses and verifications exactly if the audit's address is set
  -- and some collaborator's is, the two together: the accesses with the client that was built, the
  -- verifications at the audit's address.
  pub init-recording :
      (app : App)
      → init lib c ≡ ok app
      → AreRecording
          (access_audit_enabled lib.trim_space c && outbound_enabled lib.trim_space c)
          (app.audit, app.verify_audit)
  unfolding wired
  init-recording app e =
      let (redis, outbound, audits, r, t, w) = init_parts app e in
      rw w (
        audits_lem audits (access_audit_enabled lib.trim_space c)
          (outbound_enabled lib.trim_space c) refl (rw (outbound_lem outbound r) at t))
