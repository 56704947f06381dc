-- ===== src/Response.antt =====
-- go-backend/dto/response.go: the outcome of a service call. An error message is a constructor,
-- named for what the text says; `gost` carries a node's own message through.
use flux_panel_plus.Prelude.{
  Bool, true, false, Option, none, some, ℕ, ℤ, ◌≡◌, refl, ◌⊎◌, inl, inr, arith,
}
use flux_panel_plus.Prelude.Text.{Text}

pub data Error : Type 0 where
  user_not_found user_disabled user_expired : Error
  tunnel_not_found tunnel_disabled no_tunnel_permission tunnel_permission_disabled : Error
  tunnel_permission_expired user_flow_exhausted tunnel_flow_exhausted : Error
  user_forward_limit tunnel_forward_limit : ℤ → Error
  in_port_unavailable : ℕ → Error
  in_ports_exhausted out_ports_exhausted in_node_missing out_node_missing : Error
  no_in_node_access no_out_node_access tunnel_or_route_required private_address : Error
  forward_not_found forward_update_failed gost_failed : Error
  already_assigned permission_not_found old_tunnel_missing route_required : Error
  route_not_found route_disabled route_needs_two_nodes route_node_invalid route_nodes_not_unique :
      Error
  route_ports_not_found invalid_route_deployment : Error
  route_entry_port_unavailable route_ports_exhausted : ℕ → Error
  route_entry_exhausted route_node_not_found route_name_taken route_in_use route_admin_only : Error
  group_type_invalid group_not_found group_in_use : Error
  tunnel_name_taken out_node_required nodes_must_differ tunnel_in_use node_not_found : Error
  port_range_invalid node_in_use speed_limit_not_found speed_limit_in_use : Error
  password_too_short user_name_taken admin_protected wrong_password : Error
  wrong_credentials wrong_captcha captcha_missing account_disabled : Error
  not_own_forwards no_items : Error
  gost : Text → Error

pub data Result {ℓ} (A : Type ℓ) : Type ℓ where
  ok : A → Result A
  err : Error → Result A

infixl 5 ◌>>=◌
abbrev pub ◌>>=◌ {ℓ κ} : {A : Type ℓ} {B : Type κ} → Result A → (A → Result B) → Result B
ok a >>= f = f a
err e >>= f = err e

pub Result-cases {ℓ} :
    {A : Type ℓ} (r : Result A) → ((a : A) × (r ≡ ok a)) ⊎ ((e : Error) × (r ≡ err e))
Result-cases (ok a) = inl (a, refl)
Result-cases (err e) = inr (e, refl)

-- `if test { return dto.Err(e) }`
abbrev pub refuse_if : Bool → Error → Result {0} Unit
refuse_if true e = err e
refuse_if false e = ok tt

-- `if errors.Is(err, …) { return dto.Err(e) }` behind a query.
abbrev pub or_error {ℓ} : {A : Type ℓ} → Option A → Error → Result A
or_error none e = err e
or_error (some a) e = ok a

-- A refusal that does not happen.
pub refused-false : (b : Bool) (e : Error) {u : Unit} → refuse_if b e ≡ ok u → b ≡ false
refused-false true e h = absurd (ground (arith, h))
refused-false false e h = refl

-- A row that is found.
pub answered-found {ℓ} :
    {A : Type ℓ} (o : Option A) (e : Error) {a : A} → or_error o e ≡ ok a → o ≡ some a
answered-found none e h = absurd (ground (arith, h))
answered-found (some x) e h = ground (arith, h)
