-- ===== src/Setup/Tests.antt =====
-- Keys on which the theorems of the setup wizard are run.
use nans_os.Base.{◌≡◌, refl, arith, true, false, [], ◌∷◌}
use nans_os.Setup.{initial}
use nans_os.Setup.Run.{rank, type_all, typed-page, answers, configured, answers-configured}

-- Enter, a letter, and 1.
typed-page_example :
    (rank (type_all (10 ∷ b'x' ∷ b'1' ∷ []) initial).current_setup_state ≡ 2)
    × ((type_all (10 ∷ b'x' ∷ b'1' ∷ []) initial).done ≡ false)
typed-page_example = typed-page (10 ∷ b'x' ∷ b'1' ∷ []) initial refl

answers-configured_example :
    let t = type_all (answers 3 1 0 2 1) initial in
    (t.done ≡ true) × (t.system_config ≡ configured 3 1 0 2 1)
answers-configured_example =
    answers-configured 3 1 0 2 1 (omega arith) (omega arith) (omega arith) (omega arith)
      (omega arith)
