-- ===== src/Tests/Output.antt =====
-- Examples on the output panel.
use collaborative_ide.Landing.{is_space}
use collaborative_ide.OutputPanel.{CompilerError, match_error, is_digit, is_line_end}
use collaborative_ide.OutputPanel.CompilerErrors.{IsError, match_error_complete}
use collaborative_ide.OutputPanel.Highlight.{highlight_err_msg}
use collaborative_ide.OutputPanel.Highlight.Marks.{
  highlight_err_msg_lem, IsMarkedRightly, concat_texts,
}
use collaborative_ide.Client.{Line}
use collaborative_ide.Prelude.{some, refl, [], ◌∷◌, Text, utf16, ◌≡◌, List, length, Bool, ◌≤◌, All}

-- The text "a.go:1:2: invalid x", and its parts.
abbrev error_text : Text
error_text = utf16 "a.go:1:2: invalid x"

abbrev error_parts : CompilerError
error_parts = record {
  file = utf16 "a.go";
  line = b'1' ∷ [];
  column = b'2' ∷ [];
  msg = utf16 "invalid x";
}

error_text-match : match_error error_text ≡ some error_parts
unfolding match_error utf16
error_text-match = refl

error_text-IsError : IsError error_parts error_text
unfolding utf16 is_digit is_line_end is_space
error_text-IsError = record {
  stem = b'a' ∷ [];
  one_line = (refl, tt);
  file = refl;
  rest = utf16 ":1:2: invalid x";
  text = refl;
  located = record {
    line = ((λ e. cc), (refl, tt));
    column = ((λ e. cc), (refl, tt));
    white = 32;
    space = refl;
    msg = ((λ e. cc), (refl, (refl, (refl, (refl, (refl, (refl, (refl, (refl, (refl, tt))))))))));
    text = refl;
  };
}

match_error_complete_example :
    (e' : CompilerError) × (match_error error_text ≡ some e')
    × IsError e' error_text
    × (length error_parts.file ≤ length e'.file)
match_error_complete_example = match_error_complete error_text error_parts error_text-IsError

highlight_err_msg_example :
    (parts : List (Bool × Text)) × (highlight_err_msg 7 error_parts.msg ≡ some (parts, 0))
    × (concat_texts parts ≡ error_parts.msg)
    × All IsMarkedRightly parts
highlight_err_msg_example = highlight_err_msg_lem 7 error_parts.msg

abbrev error_line : Line
error_line = record { kind = "err"; text = error_text }
