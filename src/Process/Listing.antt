-- ===== src/Process/Listing.antt =====
-- src/process.rs: what the walk finds where Windows lists the programs.
use fan_control_lian_li_wire.Base.{
  ℕ, zero, suc, ◌≤◌, ◌≡◌, refl, ap, ◌∙◌, inl, inr, Bool, ◌||◌, Option, none, some, List, [], ◌∷◌,
  ◌++◌, map, append_assoc, append-nil, arith, ◌==◌, if◌then◌else◌, Bool-cases, length, any, Bytes,
  bytes, ok, err, eq_ignore_ascii_case,
}
use fan_control_lian_li_wire.Win.{error_no_more_files}
use fan_control_lian_li_wire.Process.{Toolhelp, exe_name, walk_end, walk_from, walk, names, running}

module _ (th : Toolhelp) where
  -- From the world `w`, where the last call gave `entry`, the calls that follow list `listed`, and
  -- the last of them ends in the world `w'`.
  pub data Lists (h : th.Handle) (w' : th.World)
      : th.World → Option (List ℕ) → List (List ℕ) → Type 0 where
    done : {w : th.World} → w ≡ w' → Lists h w' w none []
    listed :
        {w : th.World} {units : List ℕ} {rest : List (List ℕ)}
        → Lists h w' (th.next w h).1 (th.next w h).0 rest
        → Lists h w' w (some units) (units ∷ rest)

  walk_from-Lists :
      (rounds : ℕ) (w w' : th.World) (h : th.Handle) (entry : Option (List ℕ))
      (entries : List (List ℕ)) (heard : List Bytes)
      → Lists h w' w entry entries
      → length entries ≤ rounds
      → walk_from th rounds w h entry heard
        ≡ (some (walk_end th (heard ++ map exe_name entries) w'), w')
  unfolding walk_from
  walk_from-Lists rounds w w' h none [] heard (done e) le = rw (e, append-nil heard) refl
  walk_from-Lists zero w w' h (some units) (_ ∷ rest) heard (listed more) le = absurd (omega arith)
  walk_from-Lists rounds w w' h none (_ ∷ rest) heard x le = elim x [ ]
  walk_from-Lists zero w w' h (some units) [] heard x le = elim x [ ]
  walk_from-Lists (suc rounds) w w' h (some units) [] heard x le = elim x [ ]
  walk_from-Lists (suc rounds) w w' h (some units) (_ ∷ rest) heard (listed more) le =
      walk_from-Lists rounds (th.next w h).1 w' h (th.next w h).0 rest
        (heard ++ (exe_name units ∷ [])) more (omega arith)
      ∙ ap (λ (ns : List Bytes). (some (walk_end th ns w'), w'))
          (append_assoc heard (exe_name units ∷ []) (map exe_name rest))

  abbrev pub found : Bytes → List (List ℕ) → Bool
  found name entries = any (λ units. eq_ignore_ascii_case (exe_name units) name) entries

  any-map :
      (name : Bytes) (entries : List (List ℕ))
      → any (λ n. eq_ignore_ascii_case n name) (map exe_name entries) ≡ found name entries
  any-map name [] = refl
  any-map name (units ∷ rest) =
      ap (λ b. eq_ignore_ascii_case (exe_name units) name || b) (any-map name rest)

  names-listed :
      (rounds : ℕ) (w w' : th.World) (h : th.Handle) (units : List ℕ) (rest : List (List ℕ))
      → (th.create w).0 ≡ some h
      → (th.first (th.create w).1 h).0 ≡ some units
      → Lists h w' (th.first (th.create w).1 h).1 (some units) (units ∷ rest)
      → length (units ∷ rest) ≤ rounds
      → names th rounds w ≡ (some (walk_end th (map exe_name (units ∷ rest)) w'), th.close w' h)
  unfolding names walk
  names-listed rounds w w' h units rest created began lists enough =
      let walked = walk_from-Lists rounds _ w' h (some units) (units ∷ rest) [] lists enough in
      rw (created, began, walked, names, walk) refl

  -- Where the snapshot lists at least one program and the listing ends, as many rounds as there are
  -- programs are enough: `running` says whether one of the names listed is this one, in any ASCII
  -- case, exactly if the listing ended because there were no more programs; any other error of
  -- `Process32NextW` is its result. The snapshot is closed either way, after the last call.
  pub running-listed :
      (rounds : ℕ) (w w' : th.World) (h : th.Handle) (name units : Bytes) (rest : List (List ℕ))
      → (th.create w).0 ≡ some h
      → (th.first (th.create w).1 h).0 ≡ some units
      → Lists h w' (th.first (th.create w).1 h).1 (some units) (units ∷ rest)
      → length (units ∷ rest) ≤ rounds
      → running th rounds w name ≡ (
        some (
            if th.last_error w' == error_no_more_files
            then ok (found name (units ∷ rest))
            else err (record { call = bytes "Process32NextW"; code = th.last_error w' })),
        th.close w' h,
      )
  unfolding running
  running-listed rounds w w' h name units rest created began lists enough =
      let walked = names-listed rounds w w' h units rest created began lists enough in
      let named = any-map name (units ∷ rest) in
      rw (walked, running)
        (elim (Bool-cases (th.last_error w' == error_no_more_files)) [
          | inl e ↦ rw e (ap (λ b. (some (ok b), th.close w' h)) named)
          | inr e ↦ rw e refl
        ])
