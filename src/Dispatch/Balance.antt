-- ===== src/Dispatch/Balance.antt =====
-- Every route that is taken for a call is released again.
use encos_driver.Prelude.{
  ℕ, zero, suc, ◌+◌, ◌^◌, ◌<◌, ◌≡◌, refl, ap, ◌∙◌, arith, Bool-cases, inl, inr, List, [], ◌∷◌, map,
  All,
}
use encos_driver.Dispatch.{
  ReceiveRoute, Table, begin_call, begin_system, call_route, end_call, end_each, system_places,
  takes, update,
}

-- One more call in flight is counted without overflow.
abbrev pub HasRoom : ℕ × ReceiveRoute → Type 0
HasRoom (key, route) = route.in_flight + 1 < 2 ^ 64

end_call-begin_call : (r : ReceiveRoute) → r.in_flight + 1 < 2 ^ 64 → end_call (begin_call r) ≡ r
unfolding end_call begin_call
end_call-begin_call r h = ap (λ (n : ℕ). record r { in_flight = n }) (omega arith)

pub call_route-same : (i : ℕ) (t : Table ReceiveRoute) → All HasRoom t → call_route i t ≡ t
unfolding call_route
call_route-same i [] h = refl
call_route-same zero ((k, r) ∷ t) h = ap (λ x. (k, x) ∷ t) (end_call-begin_call r h.0)
call_route-same (suc i) (e ∷ t) h = ap (λ x. e ∷ x) (call_route-same i t h.1)

end_each-suc :
    (is : List ℕ) (e : ℕ × ReceiveRoute) (t : Table ReceiveRoute)
    → end_each (map suc is) (e ∷ t) ≡ e ∷ end_each is t
unfolding end_each
end_each-suc [] e t = refl
end_each-suc (i ∷ is) e t = end_each-suc is e (update i end_call t)

-- The two loops of a system frame leave the routes as they were.
pub end_each-begin_system :
    (bus : ℕ) (t : Table ReceiveRoute)
    → All HasRoom t
    → end_each (system_places bus t) (begin_system bus t) ≡ t
unfolding end_each system_places begin_system
end_each-begin_system bus [] h = refl
end_each-begin_system bus ((k, r) ∷ t) h =
    let rest = end_each-begin_system bus t h.1 in
    elim (Bool-cases (takes bus k r)) [
      | inl yes_ ↦ rw yes_ (
          end_each-suc (system_places bus t) (k, end_call (begin_call r)) (begin_system bus t)
          ∙ ap (λ x. (k, x) ∷ end_each (system_places bus t) (begin_system bus t))
              (end_call-begin_call r h.0)
          ∙ ap (λ x. (k, r) ∷ x) rest)
      | inr no_ ↦ rw no_ (
          end_each-suc (system_places bus t) (k, r) (begin_system bus t)
          ∙ ap (λ x. (k, r) ∷ x) rest)
    ]
