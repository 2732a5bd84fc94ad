-- ===== src/Control/Commits.antt =====
-- What a commit of a mutation took to succeed, and that the handlers of
-- services/snmp-collector/internal/control/handlers.go answer.
use monitoring_project.Prelude.{
  ℕ, ◌≤◌, ◌≡◌, refl, sym, ◌∙◌, ap, String, true, false, none, some, [], ◌∷◌, ◌=s=◌, eq_refl, lookup,
  insert, delete, lookup-insert, arith, ◌+◌,
}
use monitoring_project.Prelude.Results.{ok}
use monitoring_project.Config.Types.{Config}
use monitoring_project.Control.Pending.{
  done, PendingMutation, confirm_ttl, put, check_item, take_found, take,
}
use monitoring_project.Control.Mutations.{text, Params, string_of}
use monitoring_project.Control.Handlers.{
  Server, Moment, prepared, written, Action, active_revision, record_audit, prepare_put, prepare,
  commit_applied, commit_taken, commit,
}

check_item-live :
    {P : Type 0} (now : ℕ) (item : PendingMutation P)
    → now ≤ item.expires_at
    → check_item now item.revision item.action item ≡ done item
unfolding check_item
check_item-live now item live = ground (arith, eq_refl item.action, eq_refl item.revision)

module _ {F D : Type 0} (revision_of : Config F → String) where
  -- What a commit that wrote relied on: a token that was given out for this action and the active
  -- revision, not expired, and used up by the commit; its parameters are what was applied.
  abbrev pub IsConfirmed :
      Action F D → Moment → Params F → Server F D → String → Server F D → Type 0
  IsConfirmed a t params s revision s' =
      let token = string_of (lookup "confirm_token" params) in
      (item : PendingMutation (Params F)) × (lookup token s.pending ≡ some item)
      × (item.action ≡ a.name)
      × (item.revision ≡ active_revision revision_of s)
      × (revision ≡ active_revision revision_of s)
      × (t.now ≤ item.expires_at)
      × (a.apply s.manager.current item.payload s.disk ≡ some (done tt, s'.disk))
      × (lookup token s'.pending ≡ none)
      × (s'.manager ≡ s.manager)

  kept : Moment → String → Action F D → Params F → Server F D → PendingMutation (Params F)
  kept t token a params s = record {
    token = token;
    revision = active_revision revision_of s;
    action = a.name;
    expires_at = t.now + confirm_ttl;
    payload = params;
  }

  prepare-kept :
      (a : Action F D) (t : Moment) (token : String) (params : Params F) (s : Server F D)
      → a.check params ≡ ok tt
      → t.random ≡ some token
      → prepare revision_of a t params s ≡ (
        done (prepared token (active_revision revision_of s) (t.now + confirm_ttl)),
        record_audit a.prepare_name true none
            (active_revision revision_of s)
            (record s { pending = insert token (kept t token a params s) s.pending }),
      )
  unfolding prepare put prepare_put kept active_revision
  prepare-kept a t token params s ok_ random = rw (ok_, prepare) (rw random refl)

  commit-found :
      (a : Action F D) (t : Moment) (item : PendingMutation (Params F)) (s : Server F D)
      → lookup item.token s.pending ≡ some item
      → (item.token =s= "") ≡ false
      → (item.revision =s= "") ≡ false
      → item.revision ≡ active_revision revision_of s
      → item.action ≡ a.name
      → t.now ≤ item.expires_at
      → commit revision_of a t
          (("confirm_token", text item.token) ∷ ("revision", text item.revision) ∷ [])
          s
        ≡ commit_applied revision_of a item.revision
            (a.apply s.manager.current item.payload s.disk)
            (record s { pending = delete item.token s.pending })
  unfolding commit string_of lookup take take_found commit_taken
  commit-found a t item s found nonempty active same act live =
      rw (nonempty, active, found, sym same, sym act, eq_refl)
        (rw (check_item-live t.now item live) refl)

  -- What is prepared can be confirmed: with the token and the revision that `prepare` answered,
  -- before the token expires and while the active configuration is the same, a commit applies the
  -- prepared parameters, and where that works it is written.
  pub commit-prepare :
      (a : Action F D) (t later : Moment) (token : String) (params : Params F) (s : Server F D)
      → a.check params ≡ ok tt
      → t.random ≡ some token
      → (token =s= "") ≡ false
      → (active_revision revision_of s =s= "") ≡ false
      → later.now ≤ t.now + confirm_ttl
      → (d : D) → a.apply s.manager.current params s.disk ≡ some (done tt, d)
      → (s' : Server F D) × (commit revision_of a later
            (("confirm_token", text token)
              ∷ ("revision", text (active_revision revision_of s))
              ∷ [])
            (prepare revision_of a t params s).1
          ≡ some (done (written (active_revision revision_of s)), s'))
        × (s'.disk ≡ d)
  unfolding record_audit active_revision kept commit_applied
  commit-prepare a t later token params s ok_ random nonempty active live d h =
      let s1 =
        record_audit a.prepare_name true none (active_revision revision_of s)
          (record s { pending = insert token (kept t token a params s) s.pending }) in
      let found : lookup token s1.pending ≡ some (kept t token a params s) =
        lookup-insert token token (kept t token a params s) s.pending ∙ rw (eq_refl token) refl in
      let e =
        commit-found a later (kept t token a params s) s1 found nonempty active refl refl live in
      rw (prepare-kept a t token params s ok_ random) (
        _,
        e
            ∙ ap
                (λ r.
                  commit_applied revision_of a (active_revision revision_of s) r
                    (record s1 { pending = delete token s1.pending }))
                h,
        refl,
      )
