-- ===== src/Admin/Readback/Paths.antt =====
-- The routes of PUT, PATCH and GET under /v1/tenants/: what is written under a path is read under it.
use sclawion.Prelude.{
  ◌≡◌, ◌⊎◌, inl, inr, String, Bool, true, false, ◌==◌, ◌&&◌, List, [], ◌∷◌, if◌then◌else◌, arith,
}
use sclawion.Text.{has_prefix, trim_prefix, split_slash}
use sclawion.Config.World.{World}
use sclawion.Admin.Http.{Request, Response, respond, text}
use sclawion.Admin.Act.{Act, Handler, ◌▷◌}
use sclawion.Admin.Deps.{Deps, owner_only}
use sclawion.Admin.Documents.{Sound}
use sclawion.Admin.Keeping.{Wired}
use sclawion.Admin.Echoes.{Echoes, Echoes-answer}
use sclawion.Admin.Readback.{
  patch_agent-Echoes, patch_swarm-Echoes, patch_tenant-Echoes, put_connector-Echoes,
}
use sclawion.Admin.Tenants.{patch_tenant}
use sclawion.Admin.Agents.{patch_agent}
use sclawion.Admin.Swarms.{patch_swarm}
use sclawion.Admin.Connectors.{put_connector}
use sclawion.Admin.Owners.{owner_only-At}
use sclawion.Admin.Routes.{
  handle_connector_path, handle_agent_path, handle_swarm_path, route_tenant, route_nested,
  route_segments, route_tenants_list, route_tenants_item, new_api, no_page, not_allowed,
}

-- The methods that write what a GET of the same path reads.
abbrev pub Writes : String → Type 0
Writes m = (m ≡ "PUT") ⊎ (m ≡ "PATCH")

module _ {S V : Type 0} (w : World S V) where
  -- Two requests that take the same branch.
  Echoes-if :
      (b : Bool) (x y x' y' : Act S V Response)
      → Echoes x' x w
      → Echoes y' y w
      → Echoes (if b then x' else y') (if b then x else y) w
  Echoes-if true x y x' y' p q = p
  Echoes-if false x y x' y' p q = q

  module _ (m : String) (writes : Writes m) (get a b c e : Act S V Response) where
    at_put :
        Echoes get b w
        → Echoes get e w
        → Echoes get (if m == "GET" then a else if m == "PUT" then b else e) w
    at_put p q = elim writes [ inl x ↦ rw x p | inr x ↦ rw x q ]

    at_get : Echoes get e w → Echoes get (if m == "GET" then a else e) w
    at_get q = elim writes [ inl x ↦ rw x q | inr x ↦ rw x q ]

    at_verb : (v : Bool) → Echoes get e w → Echoes get (if v && m == "POST" then a else e) w
    at_verb true q = elim writes [ inl x ↦ rw x q | inr x ↦ rw x q ]
    at_verb false q = q

    at_post : Echoes get e w → Echoes get (if m == "GET" then a else if m == "POST" then b else e) w
    at_post q = elim writes [ inl x ↦ rw x q | inr x ↦ rw x q ]

    at_patch :
        Echoes get b w
        → Echoes get e w
        → Echoes get
            (if m == "GET" then a else if m == "PATCH" then b else if m == "DELETE" then c else e)
            w
    at_patch p q = elim writes [ inl x ↦ rw x q | inr x ↦ rw x p ]

module _ {S V : Type 0} (d : Deps S V) (wd : Wired d) (q q' : Request) (m : String)
    (writes : Writes m) (w : World S V) (sound : Sound wd.contract w) where
  abbrev to : Request
  to = record q { method = m }

  abbrev back : Request
  back = record q' { method = "GET"; path = q.path }

  refused : (get : Act S V Response) → Echoes get (not_allowed to) w
  refused get = Echoes-answer get w 405 (text "method not allowed") (omega arith)

  missing : (get : Act S V Response) → Echoes get (no_page to) w
  missing get = Echoes-answer get w 404 (text "404 page not found") (omega arith)

  gated :
      (get : Act S V Response) (h : Handler S V)
      → Echoes get (h to) w
      → Echoes get (owner_only h to) w
  gated get h p = owner_only-At (λ m. Echoes get m w) h to (Echoes-answer get w) p

  connector_path :
      (tid : String) (rest : List String)
      → Echoes (handle_connector_path d tid rest back) (handle_connector_path d tid rest to) w
  unfolding handle_connector_path
  connector_path tid [] = at_get w m writes _ _ (not_allowed to) (not_allowed to) _ (refused _)
  connector_path tid (p ∷ []) =
      at_put w m writes _ _ _ (not_allowed to) _
        (gated _ (put_connector d tid p) (put_connector-Echoes d wd to back w sound tid p))
        (refused _)
  connector_path tid (p ∷ verb ∷ rest) =
      at_verb w m writes _ _ (no_page to) (no_page to) _ (verb == "secrets:rotate") (missing _)

  agent_path :
      (tid : String) (rest : List String)
      → Echoes (handle_agent_path d tid rest back) (handle_agent_path d tid rest to) w
  unfolding handle_agent_path
  agent_path tid [] = at_post w m writes _ _ _ (not_allowed to) _ (refused _)
  agent_path tid (id ∷ rest) =
      at_patch w m writes _ _ _ _ _
        (gated _ (patch_agent d tid id) (patch_agent-Echoes d wd to back w sound tid id))
        (refused _)

  swarm_path :
      (tid : String) (rest : List String)
      → Echoes (handle_swarm_path d tid rest back) (handle_swarm_path d tid rest to) w
  unfolding handle_swarm_path
  swarm_path tid [] = at_post w m writes _ _ _ (not_allowed to) _ (refused _)
  swarm_path tid (id ∷ rest) =
      at_patch w m writes _ _ _ _ _
        (gated _ (patch_swarm d tid id) (patch_swarm-Echoes d wd to back w sound tid id))
        (refused _)

  tenant_path : (tid : String) → Echoes (route_tenant d tid back) (route_tenant d tid to) w
  unfolding route_tenant
  tenant_path tid =
      at_patch w m writes _ _ _ _ _
        (gated _ (patch_tenant d tid) (patch_tenant-Echoes d wd to back w sound tid)) (refused _)

  nested_path :
      (tid : String) (rest : List String)
      → Echoes (route_nested d tid rest back) (route_nested d tid rest to) w
  unfolding route_nested
  nested_path tid [] = tenant_path tid
  nested_path tid (section ∷ rest) =
      Echoes-if w (section == "connectors") _ _ _ _ (connector_path tid rest) (
        Echoes-if w (section == "agents") _ _ _ _ (agent_path tid rest)
          (Echoes-if w (section == "swarms") _ _ _ _ (swarm_path tid rest) (missing _)))

  segments_path :
      (parts : List String) → Echoes (route_segments d parts back) (route_segments d parts to) w
  unfolding route_segments
  segments_path [] = missing _
  segments_path (tid ∷ rest) = Echoes-if w (tid == "") _ _ _ _ (missing _) (nested_path tid rest)

  list_path : Echoes (route_tenants_list d back) (route_tenants_list d to) w
  unfolding route_tenants_list
  list_path = at_post w m writes _ _ _ (not_allowed to) _ (refused _)

  -- If the service is wired to one store that keeps its contract, every document of the store is
  -- accepted by its validator and stands under its own keys, and a PUT or PATCH of a path under
  -- /v1/tenants/ is answered 200, then a GET of the same path, by whatever caller, is answered 200 with the
  -- same body afterwards.
  pub write-read :
      has_prefix q.path "/v1/tenants/" ≡ true
      → (new_api d to ▷ w).0.status ≡ 200
      → (new_api d back ▷ (new_api d to ▷ w).1).0 ≡ respond 200 (new_api d to ▷ w).0.body
  unfolding new_api route_tenants_item
  write-read under =
      Echoes-if w (q.path == "/v1/tenants") _ _ _ _ list_path
        (rw under (segments_path (split_slash (trim_prefix q.path "/v1/tenants/"))))
