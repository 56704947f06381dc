-- ===== src/Failover/Switch.antt =====
-- What one evaluation of a group leaves behind.
use flux_panel_plus.Prelude.{
  ℕ, ℤ, pos, eq_ℤ, eq_ℤ_iff, ◌<ℤ◌, ◌≤ℤ◌, sub64, ◌≡◌, ◌≢◌, ◌⊎◌, inl, inr, refl, ap, ◌∙◌, true, ◌&&◌,
  Option, none, some, List, [], ◌∷◌, arith, ◌==◌, ==_iff, Bool-cases, Option-cases, fun_ext,
  ==_refl, subst,
}
use flux_panel_plus.Prelude.Table.{
  first_where, first_where_sound, first_where_update, by_id, find_where, for_each,
}
use flux_panel_plus.Model.{NodeGroup, GroupMember, DdnsDomain}
use flux_panel_plus.Model.Database.{Db}
use flux_panel_plus.Gost.Commands.{Env}
use flux_panel_plus.Failover.Defs.{
  Dns, Site, failover_debounce_ms, member_healthy, first_healthy, group_members,
  active_group_member, provider_for, set_record, apply_ddns_record, switched, save_switch,
  apply_group_switch, any_member, failover_target, switch_to, evaluate_group_failover,
}

module _ (env : Env) (dns : Dns) where
  apply_ddns_record-rest :
      (m : GroupMember) (d : DdnsDomain) (s : Site)
      → let db = (apply_ddns_record env dns m d s).db in db ≡ record (s.db) { domains = db.domains }
  unfolding apply_ddns_record set_record
  apply_ddns_record-rest m d s = elim (Option-cases (provider_for dns s.db d.provider_id)) [
    | inl e ↦ ground (arith, e)
    | inr (p, e) ↦ ground (arith, e)
  ]

  -- Nothing but the domains' rows is written.
  domains-rest :
      (m : GroupMember) (ds : List DdnsDomain) (s : Site)
      → let db = (for_each (apply_ddns_record env dns m) ds s).db in
        db ≡ record (s.db) { domains = db.domains }
  domains-rest m [] s = refl
  domains-rest m (d ∷ ds) s =
      let s' = apply_ddns_record env dns m d s in
      let last = (for_each (apply_ddns_record env dns m) ds s').db.domains in
      domains-rest m ds s'
      ∙ ap (λ (db : Db). record db { domains = last }) (apply_ddns_record-rest m d s)

  switched-rest :
      (g : NodeGroup) (m : GroupMember) (s : Site)
      → let db = (apply_group_switch env dns g m s).db in
        db ≡ record (save_switch env g m s).db { domains = db.domains }
  unfolding apply_group_switch
  switched-rest g m s =
      domains-rest m
        (find_where (λ d. (d.group_id == g.id) && eq_ℤ d.auto_resolve (pos 1)) s.db.domains)
        (save_switch env g m s)

  -- The row of the group is the group that the evaluation leaves in memory.
  switch_to-row :
      (g : NodeGroup) (o : Option GroupMember) (s : Site)
      → first_where (by_id (λ (r : NodeGroup). r.id) g.id) s.db.groups ≡ some g
      → let (g', s') = switch_to env dns g o s in
        first_where (by_id (λ (r : NodeGroup). r.id) g.id) s'.db.groups ≡ some g'
  unfolding switch_to
  switch_to-row g none s h = h
  switch_to-row g (some m) s h =
      let p = by_id (λ (r : NodeGroup). r.id) g.id in
      ap (λ (db : Db). first_where p db.groups) (switched-rest g m s)
      ∙ ground
          (arith, first_where_update p p (switched env m) s.db.groups (λ r. refl), h, ==_refl g.id)

  -- A member that the group is switched to is the preferred one.
  target_first :
      (g : NodeGroup) (ms : List GroupMember) {t : GroupMember}
      → failover_target env g ms ≡ some t
      → first_healthy env ms ≡ some t
  unfolding failover_target
  target_first g ms {t} e = elim (Option-cases (first_healthy env ms)) [
    | inl n ↦ ground (arith, n, e)
    | inr (b, f) ↦ ground (arith, f, e)
  ]

  target_again :
      (now : ℤ) (g : NodeGroup) (ms : List GroupMember) {t : GroupMember}
      → first_healthy env ms ≡ some t
      → failover_target (record env { now = now }) (switched env t g) ms ≡ none
  unfolding failover_target
  target_again now g ms {t} f = ground (arith, f)

  -- No switch within the last minute.
  abbrev pub IsFree : NodeGroup → Type 0
  IsFree g =
      (g.last_switch_time ≡ pos 0) ⊎ (failover_debounce_ms ≤ℤ sub64 env.now g.last_switch_time)

  -- What a group that was free to switch did not do, it does not do later.
  target_later :
      (now : ℤ) (g : NodeGroup) (ms : List GroupMember)
      → IsFree g
      → failover_target env g ms ≡ none
      → failover_target (record env { now = now }) g ms ≡ none
  unfolding failover_target
  target_later now g ms free e = elim (Option-cases (first_healthy env ms)) [
    | inl n ↦ ground (arith, n)
    | inr (b, f) ↦ ground (arith, f, e, free, eq_ℤ_iff g.last_switch_time (pos 0))
  ]

  settled :
      (now : ℤ) (g : NodeGroup) (s : Site) (o : Option GroupMember)
      → IsFree g
      → failover_target env g (group_members s.db g.id) ≡ o
      → let (g', s') = switch_to env dns g o s in
        failover_target (record env { now = now }) g' (group_members s'.db g'.id) ≡ none
  unfolding group_members switch_to
  settled now g s none free e = target_later now g (group_members s.db g.id) free e
  settled now g s (some t) free e =
      let later = record env { now = now } in
      ap (λ (db : Db). failover_target later (switched env t g) (group_members db g.id))
        (switched-rest g t s)
      ∙ target_again now g (group_members s.db g.id) (target_first g (group_members s.db g.id) e)

  unswitched :
      (later : Env) (g : NodeGroup) (s : Site)
      → failover_target later g (group_members s.db g.id) ≡ none
      → evaluate_group_failover later dns g s ≡ (g, s)
  unfolding evaluate_group_failover switch_to
  unswitched later g s e = ap (λ o. switch_to later dns g o s) e

  settles_in_memory :
      (later : Env) (g : NodeGroup) (s : Site)
      → ((n : ℕ) → later.is_node_online n ≡ env.is_node_online n)
      → IsFree g
      → let (g', s') = evaluate_group_failover env dns g s in
        evaluate_group_failover later dns g' s' ≡ (g', s')
  unfolding evaluate_group_failover failover_target
  settles_in_memory later g s same free =
      let (g', s') = evaluate_group_failover env dns g s in
      unswitched later g' s' (
        ap
          (λ on.
            failover_target (record later { is_node_online = on }) g' (group_members s'.db g'.id))
          (fun_ext same)
        ∙ settled later.now g s (failover_target env g (group_members s.db g.id)) free refl)

  -- Where a group, as its row is, had no switch within the last minute: a second evaluation, at any time
  -- and with the same nodes online, of the row that the first has left changes nothing.
  pub evaluate_group_failover_settles :
      (later : Env) (g : NodeGroup) (s : Site) {row : NodeGroup}
      → ((n : ℕ) → later.is_node_online n ≡ env.is_node_online n)
      → first_where (by_id (λ (r : NodeGroup). r.id) g.id) s.db.groups ≡ some g
      → IsFree g
      → first_where
          (by_id (λ (r : NodeGroup). r.id) g.id)
          (evaluate_group_failover env dns g s).1.db.groups
        ≡ some row
      → let s' = (evaluate_group_failover env dns g s).1 in
        evaluate_group_failover later dns row s' ≡ (row, s')
  unfolding evaluate_group_failover
  evaluate_group_failover_settles later g s {row} same found free left =
      let (g', s') = evaluate_group_failover env dns g s in
      let kept = switch_to-row g (failover_target env g (group_members s.db g.id)) s found in
      let again : g' ≡ row = cc (kept, left) in
      subst (λ (r : NodeGroup). evaluate_group_failover later dns r s' ≡ (r, s')) again
        (settles_in_memory later g s same free)

  -- An evaluation less than a minute after the last switch changes nothing.
  pub evaluate_group_failover_debounce :
      (g : NodeGroup) (s : Site)
      → g.last_switch_time ≢ pos 0
      → sub64 env.now g.last_switch_time <ℤ failover_debounce_ms
      → evaluate_group_failover env dns g s ≡ (g, s)
  unfolding evaluate_group_failover failover_target switch_to
  evaluate_group_failover_debounce g s h k =
      let ms = group_members s.db g.id in
      let nonzero = eq_ℤ_iff g.last_switch_time (pos 0) in
      elim (Option-cases (first_healthy env ms)) [
        | inl n ↦ ground (arith, n)
        | inr (b, f) ↦ ground (arith, f, nonzero)
      ]

  any_member-online :
      (a : ℕ) (ms : List GroupMember)
      → any_member (λ m. (m.node_id == a) && member_healthy env m) ms ≡ true
      → env.is_node_online a ≡ true
  any_member-online a [] h = cc
  any_member-online a (m ∷ ms) h = elim (Bool-cases (m.node_id == a)) [
    | inl t ↦
        ground (arith, any_member-online a ms, ap env.is_node_online ((==_iff m.node_id a).0 t))
    | inr n ↦ ground (arith, n, any_member-online a ms)
  ]

  active-online :
      (g : NodeGroup) (s : Site) {b : GroupMember}
      → active_group_member env s.db g.id ≡ some b
      → IsFree g
      → let active = (evaluate_group_failover env dns g s).0.active_member_id in
        (env.is_node_online active ≡ true) × (g.switch_back ≡ pos 1 → active ≡ b.node_id)
  unfolding evaluate_group_failover failover_target switch_to active_group_member
  active-online g s {b} f h =
      let ms = group_members s.db g.id in
      ground (
        arith,
        f,
        first_where_sound (member_healthy env) ms f,
        any_member-online g.active_member_id ms,
      )

  -- Where a group has a row, a member of it is online and it had no switch within the last minute, the
  -- active member of its row after an evaluation is online; in a group that switches back it is the
  -- preferred member.
  pub evaluate_group_failover_online :
      (g : NodeGroup) (s : Site) {b : GroupMember}
      → first_where (by_id (λ (r : NodeGroup). r.id) g.id) s.db.groups ≡ some g
      → active_group_member env s.db g.id ≡ some b
      → IsFree g
      → (g' : NodeGroup) × (first_where
            (by_id (λ (r : NodeGroup). r.id) g.id)
            (evaluate_group_failover env dns g s).1.db.groups
          ≡ some g')
        × (env.is_node_online g'.active_member_id ≡ true)
        × (g.switch_back ≡ pos 1 → g'.active_member_id ≡ b.node_id)
  unfolding evaluate_group_failover
  evaluate_group_failover_online g s {b} row f h =
      let (online, preferred) = active-online g s {b = b} f h in
      (
        (evaluate_group_failover env dns g s).0,
        switch_to-row g (failover_target env g (group_members s.db g.id)) s row,
        online,
        preferred,
      )
