-- ===== src/Tests/Codes.antt =====
-- Codes of groups and invites.
use void_bridge.Base.{◌≡◌, codes}
use void_bridge.Protocol.Code.{normalize_code, valid_code, format_code}
use void_bridge.Protocol.Code.Round

normalize_code-format_code_example :
    let code = codes "abcd efgh 2345 mn01" in
    (normalize_code (format_code code) ≡ normalize_code code)
    × (valid_code (format_code code) ≡ valid_code code)
    × (format_code (format_code code) ≡ format_code code)
normalize_code-format_code_example = Round.normalize_code-format_code (codes "abcd efgh 2345 mn01")
