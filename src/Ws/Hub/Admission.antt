-- ===== src/Ws/Hub/Admission.antt =====
-- The limit on connections.
use go_oam.Base.{
  ℕ, zero, suc, ◌+◌, ◌≤◌, ◌<◌, ◌≡◌, refl, sym, ap, ◌∙◌, inl, inr, Bool, false, Option, none, some,
  List, [], ◌∷◌, arith, subst, length, Option-cases, Key, pos,
}
use go_oam.Ws.Hub.{Hub, new_hub, refusal, admit, join, at_limit}

-- A request whose tests and whose connection follow each other with nothing between.
unfoldable pub serve_http : Hub → Option Bool → Key → Hub
unfolding admit join
serve_http h origin id = elim (refusal h origin) [
  | none ↦ join (admit h origin) id
  | some status ↦ h
]

-- Handled one after another, requests keep the number of connections within the limit.
pub serve_http-le :
    (h : Hub) (limit n : ℕ) (origin : Option Bool) (id : Key)
    → h.max_conns ≡ pos limit
    → 0 < limit
    → h.total ≡ pos n
    → n ≤ limit
    → (m : ℕ) × ((serve_http h origin id).total ≡ pos m) × (m ≤ limit)
unfolding serve_http admit join refusal
serve_http-le h limit n origin id e l t k = elim (Option-cases (refusal h origin)) [
  | inr (status, refused) ↦ (n, ground arith, k)
  | inl passes ↦ (suc n, ground arith, ground arith)
]

unfoldable pub admit_times : ℕ → Hub → Hub
unfolding admit
admit_times zero h = h
admit_times (suc k) h = admit_times k (admit h none)

unfoldable pub join_each : Hub → List Key → Hub
unfolding join
join_each h [] = h
join_each h (id ∷ ids) = join_each (join h id) ids

admit_passes :
    (h : Hub)
    → h.closed ≡ false
    → at_limit h.max_conns h.total ≡ false
    → admit h none ≡ record h { joining = suc h.joining }
unfolding admit refusal
admit_passes h c l = ground arith

admitted :
    (k : ℕ) (h : Hub)
    → h.closed ≡ false
    → at_limit h.max_conns h.total ≡ false
    → ((admit_times k h).joining ≡ h.joining + k) × ((admit_times k h).total ≡ h.total)
unfolding admit_times
admitted zero h c l = (omega arith, refl)
admitted (suc k) h c l =
    let later = admitted k (record h { joining = suc h.joining }) c l in
    subst
      (λ g. ((admit_times k g).joining ≡ h.joining + suc k) × ((admit_times k g).total ≡ h.total))
      (sym (admit_passes h c l)) (omega (arith, later.0), later.1)

joined :
    (ids : List Key) (h : Hub) (n : ℕ)
    → length ids ≤ h.joining
    → h.total ≡ pos n
    → (join_each h ids).total ≡ pos (n + length ids)
unfolding join_each join
joined [] h n l t = t ∙ ap pos (omega arith)
joined (id ∷ ids) h n l t =
    joined ids (join h id) (suc n) (ground arith) (ground arith) ∙ ap pos (omega arith)

-- Requests that pass the tests before the first of them is added all join: their number is not
-- bound by the limit.
pub join_each-admit_times :
    (limit size : ℕ) (codec : Key) (ids : List Key)
    → 0 < limit
    → (join_each (admit_times (length ids) (new_hub (pos limit) size codec)) ids).total
      ≡ pos (length ids)
unfolding new_hub
join_each-admit_times limit size codec ids l =
    let start = new_hub (pos limit) size codec in
    let (waiting, none_yet) = admitted (length ids) start refl (ground arith) in
    joined ids (admit_times (length ids) start) 0 (omega (arith, waiting)) none_yet
    ∙ ap pos (omega arith)
