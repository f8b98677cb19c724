-- ===== src/Scraping/Challenge.antt =====
-- scraping/challenge.py
use athome_japan_agent_harne.Common.{String, Option, none, some, List, [], ◌∷◌, any, if◌then◌else◌}
use athome_japan_agent_harne.Common.Texts.{codes_of, lower, occurs_in}

unfoldable pub detect_athome_challenge : String → Option String
detect_athome_challenge body =
    let lowered = lower (codes_of body) in
    let marked = λ (markers : List String). any (λ m. occurs_in (codes_of m) lowered) markers in
    if marked ("click to verify" ∷ "認証にご協力ください" ∷ [])
    then some "puzzle"
    else if marked
        ("to regain access, please make sure that cookies and javascript are enabled" ∷ [])
    then some "javascript"
    else none
