-- ===== src/Writer/Examples.antt =====
-- Runs of src/wire.c, lines 47 to 108, at concrete inputs.
use thalovant_embedded_c.Base.{◌≡◌, codes}
use thalovant_embedded_c.Writer.{append, append_json_string}
use thalovant_embedded_c.Writer.Laws.{literal, append_json_string-eq}

append_json_string-eq_example :
    append_json_string 20 (codes "[") (codes "a\"b\n")
    ≡ append 20 (codes "[") (literal (codes "a\"b\n"))
append_json_string-eq_example = append_json_string-eq 20 (codes "[") (codes "a\"b\n")
