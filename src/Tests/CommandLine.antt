-- ===== src/Tests/CommandLine.antt =====
-- The theorems on user/sh.c, on the line " ls a".
use testcode.Base.{ℕ, inl, inr, refl, List, [], ◌∷◌, arith, ◌==◌, if◌then◌else◌}
use testcode.Str.{Bytes}
use testcode.Str.Text.{IsString}
use testcode.Shell.{gettoken, parseexec}
use testcode.Shell.Arguments.{Parses, parseexec-Parses}
use testcode.Shell.Bounds.{InLine, gettoken-InLine}
use testcode.Shell.Line.{Piece, IsLine}
use testcode.Shell.Run.{ParsedLine, parsecmd-ParsedLine}

abbrev pub line_bytes : List ℕ
line_bytes = b' ' ∷ b'l' ∷ b's' ∷ b' ' ∷ b'a' ∷ []

abbrev pub line : Bytes
line a =
    if a == 100
    then b' '
    else if a == 101
    then b'l'
    else if a == 102
    then b's'
    else if a == 103
    then b' '
    else if a == 104
    then b'a'
    else 0

abbrev pub pieces : List Piece
pieces =
    record { word = b'l' ∷ b's' ∷ []; gap = b' ' ∷ [] } ∷ record { word = b'a' ∷ []; gap = [] } ∷ []

pub line_string : IsString line 100 line_bytes
line_string = (
  refl,
  omega arith,
  (refl, omega arith, (refl, omega arith, (refl, omega arith, (refl, omega arith, refl)))),
)

pub pieces-IsLine : IsLine pieces
pieces-IsLine = (
  omega arith,
  ((refl, omega arith), ((refl, omega arith), tt)),
  (refl, tt),
  inr (omega arith),
  (omega arith, ((refl, omega arith), tt), tt, inl refl, tt),
)

gettoken-InLine_example : InLine 105 100 (gettoken 105 line 100)
gettoken-InLine_example = gettoken-InLine 105 100 line refl (omega arith)

parseexec-Parses_example : Parses 100 105 (parseexec 6 105 line 100)
parseexec-Parses_example = parseexec-Parses 6 105 100 line refl (omega arith) (omega arith)

parsecmd-ParsedLine_example :
    ParsedLine 6 line 100 line_bytes ((b'l' ∷ b's' ∷ []) ∷ (b'a' ∷ []) ∷ [])
parsecmd-ParsedLine_example =
    parsecmd-ParsedLine 6 line 100 (b' ' ∷ []) pieces line_string (refl, tt) pieces-IsLine
      (omega arith) (omega arith) (omega arith)
