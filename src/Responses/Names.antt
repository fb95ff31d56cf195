-- ===== src/Responses/Names.antt =====
-- The name of the data set: the last part of the path of the container's file.
use sql_handler.Prelude.{◌≡◌, refl, false, none, some, [], ◌∷◌, ◌++◌, Text, All, ◌==◌}
use sql_handler.Responses.{behind_slash, dataset_name_of}

-- No character of the text is a slash.
abbrev pub IsFileName : Text → Type 0
IsFileName s = All (λ c. (c == b'/') ≡ false) s

no_slash : (s : Text) → IsFileName s → behind_slash s ≡ none
unfolding behind_slash
no_slash [] h = refl
no_slash (c ∷ s) h = rw (no_slash s h.1, h.0) refl

last_slash : (dir s : Text) → IsFileName s → behind_slash (dir ++ b'/' ∷ s) ≡ some s
unfolding behind_slash
last_slash [] s h = rw (no_slash s h) refl
last_slash (c ∷ dir) s h = rw (last_slash dir s h) refl

-- For a file name without a slash, the data set gets that name, whether the path is the name alone or
-- the name behind a directory and a slash.
pub dataset_name_of-path :
    (dir file : Text)
    → IsFileName file
    → (dataset_name_of (dir ++ b'/' ∷ file) ≡ file) × (dataset_name_of file ≡ file)
unfolding dataset_name_of
dataset_name_of-path dir file h =
    (rw (last_slash dir file h, dataset_name_of) refl, rw (no_slash file h, dataset_name_of) refl)
