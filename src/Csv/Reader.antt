-- ===== src/Csv/Reader.antt =====
-- A reader of CSV (RFC 4180) as the independent description of what the download means: records
-- end at a line feed or a carriage return, as spreadsheets read them, fields at a comma, and a quoted
-- field holds anything, with quotes doubled.
use scan_tls.Common.{Text, eqb, ◌||◌, if◌then◌else◌, List, [], ◌∷◌, ◌++◌}
use scan_tls.Csv.{quote, comma, newline, carriage_return}

-- Where the reader stands: before a field, in a plain field, in a quoted field, or behind a quote
-- in a quoted field.
pub data Mode : Type 0 where
  before plain quoted behind : Mode

-- The fields read so far of the current record, and the text of the current field.
unfoldable pub read : Mode → Text → List Text → Text → List (List Text)
read before field [] [] = []
read _ field fields [] = (fields ++ field ∷ []) ∷ []
read quoted field fields (c ∷ s) =
    let inside = read quoted (field ++ c ∷ []) fields s in
    let out = read behind field fields s in if eqb c quote then out else inside
read before field fields (c ∷ s) =
    let next = read before [] (fields ++ field ∷ []) s in
    let record_end = (fields ++ field ∷ []) ∷ read before [] [] s in
    let open_quote = read quoted field fields s in
    let more = read plain (field ++ c ∷ []) fields s in
    if eqb c comma
    then next
    else if eqb c newline || eqb c carriage_return
    then record_end
    else if eqb c quote
    then open_quote
    else more
read behind field fields (c ∷ s) =
    let next = read before [] (fields ++ field ∷ []) s in
    let record_end = (fields ++ field ∷ []) ∷ read before [] [] s in
    let a_quote = read quoted (field ++ c ∷ []) fields s in
    let more = read plain (field ++ c ∷ []) fields s in
    if eqb c comma
    then next
    else if eqb c newline || eqb c carriage_return
    then record_end
    else if eqb c quote
    then a_quote
    else more
read plain field fields (c ∷ s) =
    let next = read before [] (fields ++ field ∷ []) s in
    let record_end = (fields ++ field ∷ []) ∷ read before [] [] s in
    let more = read plain (field ++ c ∷ []) fields s in
    if eqb c comma
    then next
    else if eqb c newline || eqb c carriage_return
    then record_end
    else more

-- the records of a whole file
unfoldable pub records : Text → List (List Text)
unfolding read
records s = read before [] [] s
