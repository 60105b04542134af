-- ===== src/ControlPanel/Statement/Tests.antt =====
-- Commands at concrete inputs.
use pg_test.Base.{◌≡◌, [], ◌∷◌, ok}
use pg_test.ControlPanel.Statement.Literals.{parse-release_text, release_text}
use pg_test.ControlPanel.Statement.{literal, parse, release}

-- The lease it's.
parse-release_text_example :
    parse (release_text (b'i' ∷ b't' ∷ b'\'' ∷ b's' ∷ []))
    ≡ ok (release (literal (b'i' ∷ b't' ∷ b'\'' ∷ b's' ∷ [])))
parse-release_text_example = parse-release_text (b'i' ∷ b't' ∷ b'\'' ∷ b's' ∷ [])
