-- ===== src/Commands/Brkcol/Ends.antt =====
-- How the writing of the documentation ends.
use old_broker_repo.Prelude.{
  Text, codes, List, [], ◌∷◌, ◌++◌, Option, none, some, Error, ◌≡◌, refl, subst, sym, ap, inl, inr,
  Option-cases,
}
use old_broker_repo.Commands.{Root, newline, fatalf, printf}
use old_broker_repo.Commands.Shell.{
  Process, ◌>>◌, done, go_on, crashed, Ended, returned, exited, negsuc, text, failure, stdout,
  stderr, Printer,
}
use old_broker_repo.Commands.Brkcol.{Generators, hdr, or_fatal, generate_root, generate_roots, work}

module _ {W : Type 0} (print : Printer W) where
  -- What is written, each with the message for its failure.
  abbrev pub Stages : Type 0
  Stages = List (Text × (W → Option Error × W))

  -- Each is written in order; at the first error its message is printed, the process ends with the code
  -- -1 and nothing else is written.
  pub data Generates : Stages → W → Ended (Unit {0}) × W → Type 0 where
    all : {w : W} → Generates [] w (returned tt, w)
    next :
        {m : Text} {g : W → Option Error × W} {stages : Stages} {w w' : W}
        {r : Ended (Unit {0}) × W}
        → g w ≡ (none, w')
        → Generates stages w' r
        → Generates ((m, g) ∷ stages) w r
    stop :
        {m : Text} {g : W → Option Error × W} {stages : Stages} {w w' : W} {x : Error}
        → g w ≡ (some x, w')
        → Generates
            ((m, g) ∷ stages)
            w
            (exited (negsuc 0), print stderr (m ++ newline print) (failure x ∷ []) w')

module _ {W : Type 0} (print : Printer W) (gen : Generators W) (brks_root : Root W) where
  abbrev rest_after : Process W (Unit {0}) → Text → (W → Option Error × W) → Process W (Unit {0})
  rest_after rest m g = or_fatal gen brks_root (fatalf print) m g >> rest

  or_fatal-Generates :
      (rest : Process W (Unit {0})) (m : Text) (g : W → Option Error × W) (stages : Stages print)
      (w : W)
      → ((w' : W) → Generates print stages w' (rest w'))
      → Generates print ((m, g) ∷ stages) w (rest_after rest m g w)
  unfolding or_fatal fatalf
  or_fatal-Generates rest m g stages w h = elim (Option-cases (g w).0) [
    | inl p ↦
        let q : g w ≡ (none, (g w).1) = ap (λ e. (e, (g w).1)) p in
        rw p (Generates.next q (h (g w).1))
    | inr (x, p) ↦
        let q : g w ≡ (some x, (g w).1) = ap (λ e. (e, (g w).1)) p in rw p (Generates.stop q)
  ]

  -- What brkcol writes of a root.
  abbrev pub stages_of : Text → Root W → Stages print
  stages_of dir r =
      (codes "Unable to output manpage tree: %v", gen.gen_man_tree r hdr dir)
      ∷ (codes "Unable to output markdown tree: %v", gen.gen_markdown_tree r dir)
      ∷ (codes "Unable to output YAML tree: %v", gen.gen_yaml_tree r dir)
      ∷ (
        codes "Unable to output bash completion file: %v",
        gen.gen_bash_completion_file r (dir ++ codes "/" ++ gen.name r ++ codes ".bash"),
      )
      ∷ []

  done_after : (r : Ended (Unit {0}) × W) → go_on r.0 (λ _. done tt) r.1 ≡ r
  done_after (returned tt, w) = refl
  done_after (exited code, w) = refl
  done_after (crashed, w) = refl

  generate_root-Generates :
      (dir : Text) (r : Root W) (w : W)
      → Generates print (stages_of dir r) w (generate_root gen brks_root (fatalf print) dir r w)
  unfolding generate_root
  generate_root-Generates dir r w =
      let m = codes "Unable to output bash completion file: %v" in
      let g = gen.gen_bash_completion_file r (dir ++ codes "/" ++ gen.name r ++ codes ".bash") in
      let completion = or_fatal gen brks_root (fatalf print) m g in
      let yaml =
        rest_after completion (codes "Unable to output YAML tree: %v") (gen.gen_yaml_tree r dir) in
      let markdown =
        rest_after yaml (codes "Unable to output markdown tree: %v")
          (gen.gen_markdown_tree r dir) in
      or_fatal-Generates markdown (codes "Unable to output manpage tree: %v")
        (gen.gen_man_tree r hdr dir) _ w
        (λ w₁.
          or_fatal-Generates yaml (codes "Unable to output markdown tree: %v")
            (gen.gen_markdown_tree r dir) _ w₁
            (λ w₂.
              or_fatal-Generates completion (codes "Unable to output YAML tree: %v")
                (gen.gen_yaml_tree r dir) _ w₂
                (λ w₃.
                  subst (Generates print ((m, g) ∷ []) w₃) (done_after (completion w₃))
                    (or_fatal-Generates (done tt) m g [] w₃ (λ w₄. Generates.all)))))

  -- The command brkcol, after its first message, writes the manual pages, the markdown, the YAML
  -- and the completion file of the broker's command, in this order; at the first that fails it
  -- prints that failure's message to the standard error and ends the process with the exit code -1,
  -- with nothing further written, and if none fails it returns.
  pub work-Generates :
      (dir : Text) (w : W)
      → Generates print
          (stages_of dir brks_root)
          (print stdout
            (codes "Outputting Broker CLI collateral files to %s" ++ newline print)
            (text dir ∷ [])
            w)
          (work gen brks_root (printf print) (fatalf print) dir w)
  unfolding work printf generate_roots
  work-Generates dir w =
      let w₁ =
        print stdout (codes "Outputting Broker CLI collateral files to %s" ++ newline print)
          (text dir ∷ []) w in
      subst (Generates print (stages_of dir brks_root) w₁)
        (sym (done_after (generate_root gen brks_root (fatalf print) dir brks_root w₁)))
        (generate_root-Generates dir brks_root w₁)
