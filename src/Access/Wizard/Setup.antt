-- ===== src/Access/Wizard/Setup.antt =====
-- When the wizard makes an account, and with which password.
use e_callisto_ng.Prelude.Text.{codes, same_text_refl}
use e_callisto_ng.Prelude.{
  ℕ, ◌≤◌, ◌≡◌, refl, ap, Bool, true, false, none, some, List, [], ◌∷◌, ◌++◌, arith,
}
use e_callisto_ng.Legacy.Station.{StationConfig, parse_callisto_cfg}
use e_callisto_ng.Access.{Db, Reply, User, admin, create_user, find_name, login, new_user}
use e_callisto_ng.Access.Wizard.{
  Answers, Next, Site, admin_name, admin_secret, final_step, finalize, is_configured, of_config,
  or_fresh, updated, wizard_submit,
}

module _ (hash : List ℕ → ℕ) (verify : List ℕ → ℕ → Bool) (new_id : List User → ℕ)
    (floats ints : List ℕ → Bool) (shown : Bool → List ℕ → List ℕ) where
  abbrev pub submit : ℕ → ℕ → List ℕ → Answers → Site → Site × Next
  submit = wizard_submit hash verify new_id floats ints shown

  -- Only a request at the review makes an account: if one turns an unconfigured site into a
  -- configured one, nothing was pasted into it and the wizard stood at its final step.
  wizard_submit_account :
      (token now : ℕ) (cfg : List ℕ) (form : Answers) (s : Site)
      → is_configured s.db ≡ false
      → is_configured (wizard_submit hash verify new_id floats ints shown token now cfg form s).0.db
        ≡ true
      → (cfg ≡ []) × (final_step ≤ (or_fresh s.wizard).step)
  unfolding wizard_submit is_configured
  wizard_submit_account token now [] form s free made = (refl, ground arith)
  wizard_submit_account token now (c ∷ cs) form s free made = ground arith

  module _ (honest : (p : List ℕ) → verify p (hash p) ≡ true) where
    login_only :
        (name password : List ℕ) (token now : ℕ) (db : Db)
        → db.users ≡ new_user hash new_id name password admin [] ∷ []
        → (login verify name password token now db).1
          ≡ Reply.ok (new_user hash new_id name password admin [])
    unfolding login find_name
    login_only name password token now db e = rw e (simp (same_text_refl, honest) (refl))

    users-login :
        (name password : List ℕ) (token now : ℕ) (db : Db)
        → (login verify name password token now db).0.users ≡ db.users
    unfolding login
    users-login name password token now db = ground arith

    -- The account that a request at the review makes.
    finalize_users :
        (token now : ℕ) (a : Answers) (s : Site)
        → s.db.users ≡ []
        → (finalize hash verify new_id floats ints shown token now a s).0.db.users
          ≡ new_user hash new_id
              (admin_name hash verify new_id floats ints shown a)
              (admin_secret hash verify new_id floats ints shown a)
              admin
              []
            ∷ []
    unfolding finalize create_user
    finalize_users token now a s e =
        let name = admin_name hash verify new_id floats ints shown a in
        let secret = admin_secret hash verify new_id floats ints shown a in
        let made : Db = record s.db {
          users = s.db.users ++ new_user hash new_id name secret admin s.db.users ∷ [];
        } in
        ground (arith, users-login name secret token now made, ap new_id e)

    pasted_users :
        (token now : ℕ) (c : ℕ) (cs : List ℕ) (cfg : StationConfig) (s : Site)
        → parse_callisto_cfg floats ints shown (c ∷ cs) ≡ some cfg
        → s.db.users ≡ []
        → s.wizard ≡ none
        → (submit token now [] (λ k. none) (submit token now (c ∷ cs) (λ k. none) s).0).0.db.users
          ≡ new_user hash new_id (codes "admin") [] admin [] ∷ []
    unfolding wizard_submit is_configured updated
    pasted_users token now c cs cfg s read e f =
        let pasted : Site = record s {
          wizard = some (record { step = final_step; answers = of_config cfg (λ k. none) });
        } in
        rw read (
          ground (
            arith,
            finalize_users token now (updated (λ k. none) (of_config cfg (λ k. none))) pasted e,
          ))

    -- A paste skips the step that asks for the administrator: on a fresh site into which
    -- a configuration is pasted that is read, the next request, with an empty form, makes the account
    -- `admin` with the empty password, and a login with these succeeds.
    pub wizard_paste_unlocked :
        (token now : ℕ) (c : ℕ) (cs : List ℕ) (cfg : StationConfig) (s : Site) (t t' : ℕ)
        → parse_callisto_cfg floats ints shown (c ∷ cs) ≡ some cfg
        → s.db.users ≡ []
        → s.wizard ≡ none
        → let pasted = (submit token now (c ∷ cs) (λ k. none) s).0 in
          let made = (submit token now [] (λ k. none) pasted).0 in
          (login verify (codes "admin") [] t t' made.db).1
          ≡ Reply.ok (new_user hash new_id (codes "admin") [] admin [])
    wizard_paste_unlocked token now c cs cfg s t t' read e f =
        login_only (codes "admin") [] t t' _ (pasted_users token now c cs cfg s read e f)
