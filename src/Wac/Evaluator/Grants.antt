-- ===== src/Wac/Evaluator/Grants.antt =====
-- What the loop over a graph decides, and how its answer depends on the mode and the agent.
use solid_pod_rs.Prelude.{
  ◌≡◌, refl, ◌↔◌, inl, inr, true, ◌||◌, Option, none, some, List, [], ◌∷◌, ◌++◌, arith, Bool-cases,
  Memᴰ,
}
use solid_pod_rs.Text.{Str}
use solid_pod_rs.Wac.Mode.{
  AccessMode, write, append, holds_mode, holds_mode_iff, map_mode, map_mode-append_of_write,
}
use solid_pod_rs.Wac.Document.{get_ids, Condition, AclAuthorization}
use solid_pod_rs.Wac.Condition.{
  ConditionOutcome, satisfied, RequestContext, GroupMembership, ConditionDispatcher,
}
use solid_pod_rs.Wac.Evaluator.{
  modes_of, get_modes, is_satisfied, all_satisfied, conditions_ok, rule_grants, base_grant,
}
use solid_pod_rs.Wac.Evaluator.Meaning.{IsAccepted, IsTarget, agent_matches_iff, path_ok_iff}

module _ (ctx : RequestContext) (groups : GroupMembership) (dispatcher : ConditionDispatcher) where
  -- Every condition of the rule is dispatched to `satisfied`.
  abbrev pub AllSatisfied : Option (List Condition) → Type 0
  AllSatisfied conds =
      (cs : List Condition)
      → conds ≡ some cs
      → (c : Condition) → Memᴰ c cs
      → dispatcher c ctx groups ≡ satisfied

  -- What a rule must meet to grant a mode on a resource.
  pub record Grants (resource : Str) (mode : AccessMode) (auth : AclAuthorization) : Type 0 where
    pub mode_listed : Memᴰ mode (get_modes auth)
    pub agent : IsAccepted auth ctx.web_id groups
    pub target : IsTarget auth resource
    pub conditions : AllSatisfied auth.condition

  is_satisfied_sound : (o : ConditionOutcome) → is_satisfied o ≡ true → o ≡ satisfied
  is_satisfied_sound o h = ground arith

  all_satisfied-elim :
      (cs : List Condition)
      → all_satisfied ctx groups dispatcher cs ≡ true
      → (c : Condition) → Memᴰ c cs
      → dispatcher c ctx groups ≡ satisfied
  unfolding all_satisfied
  all_satisfied-elim [] h c m = elim m [ ]
  all_satisfied-elim (d ∷ cs) h c (Memᴰ.head e) = rw e (ground arith)
  all_satisfied-elim (d ∷ cs) h c (Memᴰ.tail m) = all_satisfied-elim cs (ground arith) c m

  all_satisfied-intro :
      (cs : List Condition)
      → ((c : Condition) → Memᴰ c cs → dispatcher c ctx groups ≡ satisfied)
      → all_satisfied ctx groups dispatcher cs ≡ true
  unfolding all_satisfied
  all_satisfied-intro [] h = refl
  all_satisfied-intro (c ∷ cs) h =
      rw (h c (Memᴰ.head refl)) (all_satisfied-intro cs (λ d m. h d (Memᴰ.tail m)))

  conditions_ok-elim :
      (o : Option (List Condition)) → conditions_ok ctx groups dispatcher o ≡ true → AllSatisfied o
  unfolding conditions_ok
  conditions_ok-elim none h cs e = cc
  conditions_ok-elim (some ds) h cs e =
      let same : ds ≡ cs = cc in all_satisfied-elim cs (rw same at h)

  conditions_ok-intro :
      (o : Option (List Condition)) → AllSatisfied o → conditions_ok ctx groups dispatcher o ≡ true
  unfolding conditions_ok
  conditions_ok-intro none h = refl
  conditions_ok-intro (some cs) h = all_satisfied-intro cs (h cs refl)

  pub rule_grants_iff :
      (resource : Str) (mode : AccessMode) (auth : AclAuthorization)
      → (rule_grants ctx groups dispatcher resource mode auth ≡ true) ↔ Grants resource mode auth
  unfolding rule_grants
  rule_grants_iff resource mode auth = (
    λ h. record {
      mode_listed = (holds_mode_iff mode (get_modes auth)).0 (ground arith);
      agent = (agent_matches_iff auth ctx.web_id groups).0 (ground arith);
      target = (path_ok_iff auth resource).0 (ground arith);
      conditions = conditions_ok-elim auth.condition (ground arith);
    },
    λ g. rw (
      (holds_mode_iff mode (get_modes auth)).1 g.mode_listed,
      (agent_matches_iff auth ctx.web_id groups).1 g.agent,
      (path_ok_iff auth resource).1 g.target,
      conditions_ok-intro auth.condition g.conditions,
    ),
  )

  base_grant-elim :
      (resource : Str) (mode : AccessMode) (graph : List AclAuthorization)
      → base_grant ctx groups dispatcher resource mode graph ≡ true
      → (auth : AclAuthorization) × Memᴰ auth graph
        × (rule_grants ctx groups dispatcher resource mode auth ≡ true)
  unfolding base_grant
  base_grant-elim resource mode [] h = cc
  base_grant-elim resource mode (auth ∷ graph) h =
      elim (Bool-cases (rule_grants ctx groups dispatcher resource mode auth)) [
        | inl e ↦ (auth, Memᴰ.head refl, e)
        | inr e ↦
            let (a, m, q) = base_grant-elim resource mode graph (rw e at h) in (a, Memᴰ.tail m, q)
      ]

  base_grant-intro :
      (resource : Str) (mode : AccessMode) (graph : List AclAuthorization) (auth : AclAuthorization)
      → Memᴰ auth graph
      → rule_grants ctx groups dispatcher resource mode auth ≡ true
      → base_grant ctx groups dispatcher resource mode graph ≡ true
  unfolding base_grant
  base_grant-intro resource mode [] auth m h = elim m [ ]
  base_grant-intro resource mode (a ∷ graph) auth (Memᴰ.head e) h = rw (← e) (rw h)
  base_grant-intro resource mode (a ∷ graph) auth (Memᴰ.tail m) h =
      ground (arith, base_grant-intro resource mode graph auth m h)

  -- The loop answers `true` exactly if a rule of the graph grants.
  pub base_grant_iff :
      (resource : Str) (mode : AccessMode) (graph : List AclAuthorization)
      → (base_grant ctx groups dispatcher resource mode graph ≡ true)
        ↔ ((auth : AclAuthorization) × Memᴰ auth graph × Grants resource mode auth)
  base_grant_iff resource mode graph = (
    λ h.
        let (a, m, q) = base_grant-elim resource mode graph h in
        (a, m, (rule_grants_iff resource mode a).0 q),
    λ (a, m, g). base_grant-intro resource mode graph a m ((rule_grants_iff resource mode a).1 g),
  )

holds_mode-append :
    (m : AccessMode) (xs ys : List AccessMode)
    → holds_mode m (xs ++ ys) ≡ (holds_mode m xs || holds_mode m ys)
holds_mode-append m [] ys = refl
holds_mode-append m (x ∷ xs) ys = ground (arith, holds_mode-append m xs ys)

modes_of-append_of_write :
    (refs : List Str)
    → holds_mode write (modes_of refs) ≡ true
    → holds_mode append (modes_of refs) ≡ true
unfolding modes_of
modes_of-append_of_write [] h = cc
modes_of-append_of_write (r ∷ rs) h = ground (
  arith,
  holds_mode-append write (map_mode r) (modes_of rs),
  holds_mode-append append (map_mode r) (modes_of rs),
  map_mode-append_of_write r,
  modes_of-append_of_write rs,
)

-- A rule that grants Write grants Append.
pub rule_grants-append_of_write :
    (ctx : RequestContext) (groups : GroupMembership) (dispatcher : ConditionDispatcher)
    (resource : Str) (auth : AclAuthorization)
    → rule_grants ctx groups dispatcher resource write auth ≡ true
    → rule_grants ctx groups dispatcher resource append auth ≡ true
unfolding rule_grants get_modes
rule_grants-append_of_write ctx groups dispatcher resource auth h =
    ground (arith, modes_of-append_of_write (get_ids auth.mode))

-- Two settings in which each rule that grants in the first grants in the second.
pub base_grant_mono :
    (c d : RequestContext) (groups : GroupMembership) (dispatcher : ConditionDispatcher)
    (resource : Str) (m n : AccessMode) (graph : List AclAuthorization)
    → ((a : AclAuthorization)
        → rule_grants c groups dispatcher resource m a ≡ true
        → rule_grants d groups dispatcher resource n a ≡ true)
    → base_grant c groups dispatcher resource m graph ≡ true
    → base_grant d groups dispatcher resource n graph ≡ true
unfolding base_grant
base_grant_mono c d groups dispatcher resource m n [] step h = cc
base_grant_mono c d groups dispatcher resource m n (a ∷ graph) step h =
    ground (arith, step a, base_grant_mono c d groups dispatcher resource m n graph step)
