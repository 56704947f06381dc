-- ===== src/Failover/Defs.antt =====
-- go-backend/service/failover.go, memberIP of go-backend/service/group.go, and providerFor and
-- applyDdnsRecord of go-backend/service/ddns.go. The entries of the system log are left out.
use flux_panel_plus.Prelude.{
  ℕ, ℤ, pos, eq_ℤ, ltb_ℤ, leb_ℤ, sub64, Bool, false, not, ◌&&◌, ◌||◌, Option, none, some, List, [],
  ◌∷◌, ◌++◌, ◌==◌, ◌*◌, ◌>>=◌, if◌then◌else◌,
}
use flux_panel_plus.Prelude.Text.{Text, is_empty}
use flux_panel_plus.Prelude.Table.{first_where, find_where, update_where, by_id, for_each}
use flux_panel_plus.Model.{NodeGroup, GroupMember, DdnsDomain, DdnsProvider, Node}
use flux_panel_plus.Model.Database.{Db}
use flux_panel_plus.Gost.Commands.{Env}
use flux_panel_plus.Ports.Defs.{get_node_by_id}

-- A call of a provider's `SetRecord`.
pub record DnsCall : Type 0 where
  pub provider_type : Text
  pub credential : Text
  pub domain : Text
  pub record_name : Text
  pub record_type : Text
  pub ip : Text

-- The encryption of credentials, none where no key is configured, and the DNS providers: which
-- types and credentials they take, and whether the last call of a list succeeds.
pub record Dns : Type 0 where
  pub crypto : Option (Text → Option Text)
  pub accepts : (type credential : Text) → Bool
  pub set_record : List DnsCall → Bool

-- The database with the calls made to the DNS providers.
pub record Site : Type 0 where
  pub db : Db
  pub dns_calls : List DnsCall

abbrev pub failover_debounce_ms : ℤ
failover_debounce_ms = pos (60 * 1000)

-- `ORDER BY priority ASC`; members of one priority stay in primary-key order.
abbrev pub insert_member : GroupMember → List GroupMember → List GroupMember
insert_member m [] = m ∷ []
insert_member m (x ∷ xs) =
    if leb_ℤ m.priority x.priority then m ∷ x ∷ xs else x ∷ insert_member m xs

unfoldable pub order_by_priority : List GroupMember → List GroupMember
order_by_priority [] = []
order_by_priority (m ∷ ms) = insert_member m (order_by_priority ms)

abbrev pub member_healthy : Env → GroupMember → Bool
member_healthy env m = env.is_node_online m.node_id

unfoldable pub first_healthy : Env → List GroupMember → Option GroupMember
first_healthy env ms = first_where (member_healthy env) ms

-- The members of a group as the evaluation reads them.
unfoldable pub group_members : Db → ℕ → List GroupMember
unfolding order_by_priority
group_members db group_id = order_by_priority (find_where (λ m. m.group_id == group_id) db.members)

unfoldable pub active_group_member : Env → Db → ℕ → Option GroupMember
unfolding group_members first_healthy
active_group_member env db group_id = first_healthy env (group_members db group_id)

-- The address of a member's node: `ServerIp`, or else `Ip`.
abbrev pub node_address : Option Node → Text
node_address none = []
node_address (some node) = if is_empty node.server_ip then node.ip else node.server_ip

unfoldable pub member_ip : Db → GroupMember → Text
unfolding get_node_by_id
member_ip db m =
    if is_empty m.member_ip then node_address (get_node_by_id db m.node_id) else m.member_ip

-- The type and the plain credential of a provider that can be used.
unfoldable pub provider_for : Dns → Db → ℕ → Option (Text × Text)
provider_for dns db id = do
  p ← first_where (by_id (λ (r : DdnsProvider). r.id) id) db.providers
  decrypt ← dns.crypto
  credential ← decrypt p.credential
  if dns.accepts p.type credential then some (p.type, credential) else none

abbrev pub save_domain : DdnsDomain → Db → Db
save_domain domain db = record db {
  domains = update_where (by_id (λ d. d.id) domain.id) (λ d. domain) db.domains;
}

-- `SetRecord` and what follows its success.
unfoldable pub set_record : Env → Dns → DdnsDomain → GroupMember → Text → Text × Text → Site → Site
set_record env dns domain member ip (type, credential) s =
    let call : DnsCall = record {
      provider_type = type;
      credential = credential;
      domain = domain.domain;
      record_name = domain.record_name;
      record_type = domain.record_type;
      ip = ip;
    } in
    let calls = s.dns_calls ++ call ∷ [] in
    if dns.set_record calls
    then record {
      db =
          save_domain
            (record domain {
              current_record = ip;
              current_member_id = member.node_id;
              updated_time = env.now;
            })
            s.db;
      dns_calls = calls;
    }
    else record s { dns_calls = calls }

unfoldable pub apply_ddns_record : Env → Dns → GroupMember → DdnsDomain → Site → Site
unfolding member_ip provider_for set_record
apply_ddns_record env dns member domain s =
    let ip = member_ip s.db member in
    if is_empty ip then s else elim (provider_for dns s.db domain.provider_id) [
      | none ↦ s
      | some p ↦ set_record env dns domain member ip p s
    ]

abbrev pub switched : Env → GroupMember → NodeGroup → NodeGroup
switched env target g = record g { active_member_id = target.node_id; last_switch_time = env.now }

abbrev pub save_switch : Env → NodeGroup → GroupMember → Site → Site
save_switch env g target s = record s {
  db = record (s.db) {
    groups = update_where (by_id (λ r. r.id) g.id) (switched env target) s.db.groups;
  };
}

unfoldable pub apply_group_switch : Env → Dns → NodeGroup → GroupMember → Site → Site
unfolding apply_ddns_record
apply_group_switch env dns g target s =
    for_each (apply_ddns_record env dns target)
      (find_where (λ d. (d.group_id == g.id) && eq_ℤ d.auto_resolve (pos 1)) s.db.domains)
      (save_switch env g target s)

abbrev pub any_member : (GroupMember → Bool) → List GroupMember → Bool
any_member p [] = false
any_member p (m ∷ ms) = p m || any_member p ms

-- The early returns of `evaluateGroupFailover`: the member to switch to, or none.
unfoldable pub failover_target : Env → NodeGroup → List GroupMember → Option GroupMember
unfolding first_healthy
failover_target env g members = elim (first_healthy env members) [
  | none ↦ none
  | some best ↦
      if not (eq_ℤ g.switch_back (pos 1))
        && not (g.active_member_id == 0)
        && any_member (λ m. (m.node_id == g.active_member_id) && member_healthy env m) members
      then none
      else if best.node_id == g.active_member_id
      then none
      else if not (eq_ℤ g.last_switch_time (pos 0))
          && ltb_ℤ (sub64 env.now g.last_switch_time) failover_debounce_ms
      then none
      else some best
]

-- The group as the code leaves it in memory, and the new state.
unfoldable pub switch_to : Env → Dns → NodeGroup → Option GroupMember → Site → NodeGroup × Site
unfolding apply_group_switch
switch_to env dns g none s = (g, s)
switch_to env dns g (some target) s = (switched env target g, apply_group_switch env dns g target s)

unfoldable pub evaluate_group_failover : Env → Dns → NodeGroup → Site → NodeGroup × Site
unfolding switch_to failover_target group_members
evaluate_group_failover env dns g s =
    switch_to env dns g (failover_target env g (group_members s.db g.id)) s

unfoldable pub evaluate_failover : Env → Dns → Site → Site
unfolding evaluate_group_failover
evaluate_failover env dns s =
    for_each (λ (g : NodeGroup) (v : Site). (evaluate_group_failover env dns g v).1) s.db.groups s
