-- ===== src/Playground/Servers/Serves.antt =====
-- What the mapping of models to servers says.
use inference_x.Prelude.{
  ℕ, suc, ◌≤◌, ◌≡◌, ◌⊎◌, String, Bool, true, none, some, List, [], ◌∷◌, ◌++◌, map, All,
}
use inference_x.Playground.Servers.{
  Url, port_of, Target, targets_from, ServerAction, stop_servers, start_server, Servers, Result,
  returned, raised, Launch,
}

-- `n`, `n` + 1 and so on, one for each element.
abbrev pub count_from : ℕ → List String → List ℕ
count_from n [] = []
count_from n (m ∷ ms) = n ∷ count_from (suc n) ms

-- The default port of the scheme, if it has one, is not above the port of the base URL.
abbrev pub DefaultBelow : Url → Type 0
DefaultBelow base = (p : ℕ) → base.default_port ≡ some p → p ≤ port_of base

abbrev pub starts_at : ℕ → List String → List ServerAction
starts_at n [] = []
starts_at n (m ∷ ms) = start_server m n ∷ starts_at (suc n) ms

-- A mapping of the models, in order and once each, to servers that have loaded them, on consecutive
-- ports from that of the base URL.
abbrev pub Mapped : Servers → Url → List String → Result → Type 0
Mapped servers base ms raised = Unit
Mapped servers base ms (returned none) = Unit
Mapped servers base ms (returned (some d)) =
    (map (λ e. e.0) d ≡ ms)
    × (map (λ e. port_of e.1) d ≡ count_from (port_of base) ms)
    × All (λ e. servers.loads e.1 e.0 ≡ some true) d

-- Nothing is touched; or every old server is stopped before each model's own is started, which
-- `cleanup` will then stop; or an exception leaves it with the first few of these done at most, and the
-- flag as it was.
abbrev pub Touched : Bool → Url → List String → Launch → Type 0
Touched started base ms l =
    ((l.actions ≡ []) × (l.started_by_playground ≡ started))
    ⊎ (((l.actions ≡ stop_servers ∷ starts_at (port_of base) ms) × (l.started_by_playground ≡ true))
        ⊎ ((l.result ≡ raised)
            × (l.started_by_playground ≡ started)
            × ((made : List ServerAction) × (rest : List ServerAction) × (l.actions
                  ≡ stop_servers ∷ made)
                × (made ++ rest ≡ starts_at (port_of base) ms))))

module _ (servers : Servers) (base : Url) (ms : List String) (low : DefaultBelow base) where
  targets : List Target
  targets = targets_from base 0 ms
