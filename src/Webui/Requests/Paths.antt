-- ===== src/Webui/Requests/Paths.antt =====
-- An id never leaves its place in a path.
use foundry_capital_markets.Prelude.{
  ℕ, ◌≡◌, refl, true, not, [], ◌∷◌, arith, ◌==◌, any, Str, codes, split, join, Lacks, split-join,
}
use foundry_capital_markets.Webui.Requests.{get_approval, decide_approval, path_of}

abbrev pub slash : ℕ
slash = b'/'

no_slash : (s : Str) → not (any (λ c. c == slash) s) ≡ true → Lacks slash s
unfolding any
no_slash [] h = tt
no_slash (c ∷ s) h = ground (arith, h, no_slash s)

module _ (J : Type 0) (encode : Str → Str) (id : Str) (apart : Lacks slash (encode id)) where
  split-get_approval :
      split slash (path_of {J = J} encode (get_approval id))
      ≡ [] ∷ codes "v1" ∷ codes "approvals" ∷ encode id ∷ []
  unfolding path_of join any
  split-get_approval =
      split-join slash [] (codes "v1" ∷ codes "approvals" ∷ encode id ∷ [])
        (tt, (no_slash (codes "v1") refl, (no_slash (codes "approvals") refl, (apart, tt))))

  split-decide_approval :
      (d : J)
      → split slash (path_of encode (decide_approval id d))
        ≡ [] ∷ codes "v1" ∷ codes "approvals" ∷ encode id ∷ codes "decision" ∷ []
  unfolding path_of join any
  split-decide_approval d =
      split-join slash [] (codes "v1" ∷ codes "approvals" ∷ encode id ∷ codes "decision" ∷ []) (
        tt,
        (
          no_slash (codes "v1") refl,
          (no_slash (codes "approvals") refl, (apart, (no_slash (codes "decision") refl, tt))),
        ),
      )

  -- If `encodeURIComponent` leaves no slash in an id, then the path of getApproval has the encoded id
  -- for its fourth segment and last, and the path of decideApproval has it there, before `decision`.
  pub split-path_of :
      (d : J)
      → (split slash (path_of {J = J} encode (get_approval id))
          ≡ [] ∷ codes "v1" ∷ codes "approvals" ∷ encode id ∷ [])
        × (split slash (path_of encode (decide_approval id d))
            ≡ [] ∷ codes "v1" ∷ codes "approvals" ∷ encode id ∷ codes "decision" ∷ [])
  split-path_of d = (split-get_approval, split-decide_approval d)
