-- ===== src/Broker/Gates.antt =====
-- internal/broker/broker.go, handleInvoke: which invokes the broker admits.
use suctl.Prelude.{
  ◌↔◌, String, ◌≡◌, true, false, ◌==◌, some, ◌⊎◌, inl, inr, arith, Bool-cases, Option-cases,
}
use suctl.Protocol.{Request}
use suctl.Modules.Route.{Route, resolve, allows}
use suctl.Broker.Core.{Core, Clock}
use suctl.Broker.Invoke.{admitted, param_text, check_route, check_name, check_invoke}

-- The request names a capability of the active surface, carries a token, and comes from the face,
-- from the provider itself, or from a module that declares the capability.
pub record MayInvoke (c : Core) (req : Request) (caller : String) (route : Route)
    (cap_name : String) : Type 0 where
  pub names : param_text "name" req.params ≡ some cap_name
  pub not_blank : (cap_name == "") ≡ false
  pub resolves : resolve cap_name c.modules ≡ some route
  pub gate :
      ((caller == "") ≡ true)
      ⊎ ((route.module_name == caller) ≡ true)
      ⊎ (allows caller cap_name c.modules ≡ true)
  pub has_token : (req.job_token == "") ≡ false

check_route_sound :
    (c : Core) (req : Request) (caller : String) (clock : Clock) (cap_name : String)
    (r route : Route) {x : String}
    → check_route c req caller clock cap_name r ≡ admitted route x
    → (r ≡ route)
      × (cap_name ≡ x)
      × (((caller == "") ≡ true)
          ⊎ ((r.module_name == caller) ≡ true)
          ⊎ (allows caller cap_name c.modules ≡ true))
      × ((req.job_token == "") ≡ false)
unfolding check_route
check_route_sound c req caller clock cap_name r route e = ground arith

check_route_complete :
    (c : Core) (req : Request) (caller : String) (clock : Clock) (cap_name : String) (r : Route)
    → ((caller == "") ≡ true)
      ⊎ ((r.module_name == caller) ≡ true)
      ⊎ (allows caller cap_name c.modules ≡ true)
    → (req.job_token == "") ≡ false
    → check_route c req caller clock cap_name r ≡ admitted r cap_name
unfolding check_route
check_route_complete c req caller clock cap_name r gate token = ground arith

check_invoke_sound :
    (c : Core) (req : Request) (caller : String) (clock : Clock) (route : Route) (cap_name : String)
    → check_invoke c req caller clock ≡ admitted route cap_name
    → MayInvoke c req caller route cap_name
unfolding check_invoke check_name
check_invoke_sound c req caller clock route cap_name e =
    elim (Option-cases (param_text "name" req.params)) [
      | inl f ↦ cc (rw (f, check_invoke) at e)
      | inr (n, f) ↦ elim (Bool-cases (n == "")) [
        | inl blank ↦ cc (rw (f, check_invoke, blank) at e)
        | inr named ↦ elim (Option-cases (resolve n c.modules)) [
          | inl g ↦ cc (rw (f, check_invoke, named, g) at e)
          | inr (r, g) ↦
              let (same, same_name, gate, token) =
                check_route_sound c req caller clock n r route {x = cap_name}
                  (rw (f, check_invoke, named, g) at e) in
              record {
                names = ground (arith, f, same_name);
                not_blank = rw (← same_name) named;
                resolves = rw (← same_name) (ground (arith, g, same));
                gate = rw (← same, ← same_name) gate;
                has_token = token;
              }
        ]
      ]
    ]

check_invoke_complete :
    (c : Core) (req : Request) (caller : String) (clock : Clock) (route : Route) (cap_name : String)
    → MayInvoke c req caller route cap_name
    → check_invoke c req caller clock ≡ admitted route cap_name
unfolding check_invoke check_name
check_invoke_complete c req caller clock route cap_name m =
    rw (m.names, check_invoke)
      (rw (m.not_blank, m.resolves)
        (check_route_complete c req caller clock cap_name route m.gate m.has_token))

-- An invoke is admitted with a route exactly if its params name a capability that resolves to it,
-- the caller is the face, the provider or a module that declares the capability, and it carries a
-- token.
pub check_invoke_iff :
    (c : Core) (req : Request) (caller : String) (clock : Clock) (route : Route) (cap_name : String)
    → (check_invoke c req caller clock ≡ admitted route cap_name)
      ↔ MayInvoke c req caller route cap_name
check_invoke_iff c req caller clock route cap_name = (
  check_invoke_sound c req caller clock route cap_name,
  check_invoke_complete c req caller clock route cap_name,
)
