-- ===== src/Errors/Format.antt =====
-- singleLineFormatFunc of client_resolver.go, over the texts of the errors.
use courier_go.Base.{String, List, [], ◌∷◌, map, length, concat, decimal, ◌≡◌, refl}

-- strings.Join
join : List String → String → String
join [] sep = ""
join (s ∷ []) sep = s
join (s ∷ t ∷ ss) sep = concat s (concat sep (join (t ∷ ss) sep))

-- fmt.Sprintf("[%s]", s)
in_brackets : String → String
in_brackets s = concat "[" (concat s "]")

-- singleLineFormatFunc
unfoldable pub single_line_format : List String → String
unfolding join in_brackets decimal
single_line_format [] = concat (decimal 0) (concat " errors occurred: " (join [] " | "))
single_line_format (s ∷ []) = concat "1 error occurred: " (in_brackets s)
single_line_format (s ∷ t ∷ ss) =
    concat (decimal (length (s ∷ t ∷ ss)))
      (concat " errors occurred: " (join (map in_brackets (s ∷ t ∷ ss)) " | "))

two_errors : single_line_format ("a" ∷ "b" ∷ []) ≡ "2 errors occurred: [a] | [b]"
unfolding single_line_format
two_errors = refl
