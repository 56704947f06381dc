-- ===== src/Create/Sends.antt =====
-- What a chain of commands has sent when it succeeds.
use flux_panel_plus.Prelude.{
  ℕ, ◌≡◌, refl, ap, ◌∙◌, ◌⊎◌, true, List, [], ◌∷◌, ◌++◌, append_assoc, append-nil, arith,
  Bool-cases, inl, inr,
}
use flux_panel_plus.Response.{Result, ok, err}
use flux_panel_plus.Gost.Commands.{World, Env, Sent, Command, send_msg, is_gost_success}
use flux_panel_plus.Actions.{Action, ◌>>◌, return, after, expect_ok}
use flux_panel_plus.Create.Services.{expect_or_undo}

-- Where the step succeeds, it has sent these commands.
abbrev pub Sends : List Sent → Action {0} Unit → Type 0
Sends cs m = (w : World) → (m w).0 ≡ ok tt → (m w).1.sent ≡ w.sent ++ cs

-- A command is among those sent.
abbrev pub Has : Sent → List Sent → Type 0
Has c [] = ⊥
Has c (d ∷ ds) = (c ≡ d) ⊎ Has c ds

pub Has-left : (c : Sent) (xs ys : List Sent) → Has c xs → Has c (xs ++ ys)
Has-left c [] ys h = absurd h
Has-left c (x ∷ xs) ys (inl e) = inl e
Has-left c (x ∷ xs) ys (inr h) = inr (Has-left c xs ys h)

pub Has-right : (c : Sent) (xs ys : List Sent) → Has c ys → Has c (xs ++ ys)
Has-right c [] ys h = h
Has-right c (x ∷ xs) ys h = inr (Has-right c xs ys h)

send_ok :
    (env : Env) (node_id : ℕ) (c : Command) (w : World)
    → is_gost_success (send_msg env node_id c w).0 ≡ true
    → (send_msg env node_id c w).1.sent ≡ w.sent ++ record { node_id = node_id; command = c } ∷ []
unfolding send_msg
send_ok env node_id c w h = ground arith

pub expect_or_undo-Sends :
    (env : Env) (node_id : ℕ) (c : Command) (undo : World → World)
    → Sends
        (record { node_id = node_id; command = c } ∷ [])
        (expect_or_undo (send_msg env node_id c) undo)
expect_or_undo-Sends env node_id c undo w =
    elim (Bool-cases (is_gost_success (send_msg env node_id c w).0)) [
      | inl t ↦ rw t (λ h. send_ok env node_id c w t)
      | inr n ↦ rw n (λ h. absurd (cc))
    ]

pub expect_ok-Sends :
    (env : Env) (node_id : ℕ) (c : Command)
    → Sends (record { node_id = node_id; command = c } ∷ []) (expect_ok (send_msg env node_id c))
expect_ok-Sends env node_id c w = elim (Bool-cases (is_gost_success (send_msg env node_id c w).0)) [
  | inl t ↦ λ h. send_ok env node_id c w t
  | inr n ↦ rw n (λ h. absurd (cc))
]

after-Sends :
    (m : Result {0} Unit × World) (n : Action {0} Unit) (ds start : List Sent) (cs : List Sent)
    → Sends ds n
    → (m.0 ≡ ok tt → m.1.sent ≡ start ++ cs)
    → (after (λ a. n) m).0 ≡ ok tt
    → (after (λ a. n) m).1.sent ≡ start ++ (cs ++ ds)
after-Sends (ok u, w) n ds start cs k h e =
    k w e ∙ ap (λ xs. xs ++ ds) (h refl) ∙ append_assoc start cs ds
after-Sends (err x, w) n ds start cs k h e = absurd (cc)

pub then-Sends :
    (m n : Action {0} Unit) (cs ds : List Sent)
    → Sends cs m
    → Sends ds n
    → Sends (cs ++ ds) (m >> n)
then-Sends m n cs ds h k w e = after-Sends (m w) n ds w.sent cs k (h w) e

pub return-Sends : Sends [] (return tt)
return-Sends w h = rw (append-nil w.sent)
