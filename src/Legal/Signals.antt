-- ===== src/Legal/Signals.antt =====
-- The words and the patterns of src/compliance/requirements/article_classifier.py.
use reguard.Prelude.{String, List, [], ◌∷◌}

abbrev pub applicability_title_keywords : List String
applicability_title_keywords = "subject matter" ∷ "scope" ∷ []

abbrev pub definitions_title_keywords : List String
definitions_title_keywords = "definitions" ∷ []

abbrev pub documentation_verb_signals : List String
documentation_verb_signals =
    "shall (?:be )?(?:appropriately )?documented" ∷ "shall (?:be )?(?:kept|retained|preserved)"
    ∷ "shall (?:be )?made available" ∷ "shall provide documentation" ∷ "technical documentation"
    ∷ "instructions for use" ∷ "shall (?:keep|retain|preserve|draw up|maintain)" ∷ "record-keeping"
    ∷ "documentation (?:keeping|and )" ∷ "quality management system" ∷ "post-market monitoring"
    ∷ "serious incident reporting" ∷ "notification" ∷ "cooperation with" ∷ "corrective action"
    ∷ "shall (?:be )?(?:accompanied|supported) by"
    ∷ "shall (?:put|place) (?:on the market|into service)" ∷ []

abbrev pub behaviour_verb_signals : List String
behaviour_verb_signals =
    "shall (?:[\\w-]+ )?allow for" ∷ "shall (?:[\\w-]+ )?enable" ∷ "shall (?:[\\w-]+ )?provide"
    ∷ "shall (?:be )?(?:designed|developed|tested|equipped|displayed|overseen|transparent|capable of)"
    ∷ "shall (?:be )?able to" ∷ "shall (?:automatically|continuously|by default)"
    ∷ "shall (?:log|record|detect|prevent|mitigate|monitor|trace|track|flag|warn|alert|refuse|reject|interrupt|halt|stop|pause|continue|resume)"
    ∷ "shall (?:be )?(?:interoperable|resilient|robust|secure)"
    ∷ "shall (?:ensure|guarantee|maintain)" ∷ "shall (?:bear|have|include|contain)"
    ∷ "shall (?:be )?interpreted" ∷ "shall (?:be )?(?:resistant|protected)" ∷ []

abbrev pub prohibited_title_keywords : List String
prohibited_title_keywords = "prohibited" ∷ []

abbrev pub model_level_signals : List String
model_level_signals =
    "training (?:data|procedure|process)" ∷ "validation and testing data sets?" ∷ "data sets? shall"
    ∷ "accuracy" ∷ "robustness" ∷ "cybersecurity" ∷ "data governance" ∷ "data[- ]preparation"
    ∷ "annotation" ∷ "labelling" ∷ "biases?" ∷ []
