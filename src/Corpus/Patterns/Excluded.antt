-- ===== src/Corpus/Patterns/Excluded.antt =====
-- The names and topics that src/compliance/corpus/classifier.py excludes; a pattern is searched with `re.I`.
use reguard.Prelude.{String, List, [], ◌∷◌}

abbrev pub hard_exclude_name_patterns : List (String × String)
hard_exclude_name_patterns =
    ("\\bawesome[-_ ]", "awesome-list")
    ∷ ("^awesome\\b", "awesome-list")
    ∷ ("\\bworkshop(s)?\\b", "workshop")
    ∷ ("\\btutorial(s|ing)?\\b", "tutorial")
    ∷ ("\\bcourse(s|ware)?\\b", "course")
    ∷ ("\\bcookbook\\b", "cookbook")
    ∷ ("\\binterview[-_ ]?(prep|questions?)\\b", "interview-prep")
    ∷ ("\\bcheat[-_ ]?sheet\\b", "cheatsheet")
    ∷ ("\\b(book(s)?|handbook)\\b", "book")
    ∷ ("\\broad[-_ ]?map(s)?\\b", "roadmap")
    ∷ ("\\b(learning|study)[-_ ]?path\\b", "learning-path")
    ∷ ("\\btext[-_ ]?book\\b", "textbook")
    ∷ ("\\b(syllabus|curriculum)\\b", "syllabus")
    ∷ ("\\bcheatsheets?\\b", "cheatsheet")
    ∷ ("\\bdataset(s)?\\b", "dataset")
    ∷ ("\\bbenchmark(s|ing)?\\b", "benchmark")
    ∷ ("\\bpaper(s)?[-_ ]?impl", "paper-impl")
    ∷ ("\\bmodel(s)?[-_ ]?zoo\\b", "model-zoo")
    ∷ ("\\bprompt[-_ ]?(library|collection|book|guide)\\b", "prompt-library")
    ∷ ("^chatgpt[-_ ]?(clone|wrapper|ui)$", "chatgpt-clone")
    ∷ ("^llm[-_ ]?ui$", "llm-ui")
    ∷ ("^llm[-_ ]?playground$", "llm-playground")
    ∷ []

abbrev pub hard_exclude_topic_patterns : List (String × String)
hard_exclude_topic_patterns =
    ("awesome", "awesome-list")
    ∷ ("awesome-list", "awesome-list")
    ∷ ("learning-resource", "learning-resource")
    ∷ ("roadmap", "learning-resource")
    ∷ ("learning-path", "learning-path")
    ∷ ("cheatsheet", "cheatsheet")
    ∷ ("interview-prep", "interview-prep")
    ∷ ("stanford", "course")
    ∷ ("dataset", "dataset")
    ∷ ("benchmark", "benchmark")
    ∷ ("prompt-library", "prompt-library")
    ∷ ("openai-gym", "rl-framework")
    ∷ ("isaac-gym", "rl-framework")
    ∷ ("self-play", "rl-framework")
    ∷ ("world-model", "world-model")
    ∷ ("worldmodel", "world-model")
    ∷ ("spiking-neural-network", "spiking-nn")
    ∷ ("neuroscience", "spiking-nn")
    ∷ ("mcp-server", "mcp-server")
    ∷ ("mcp-servers", "mcp-server")
    ∷ ("mcp-gateway", "mcp-server")
    ∷ ("mcp-service", "mcp-server")
    ∷ ("mcp-services", "mcp-server")
    ∷ ("mcp-tools", "mcp-server")
    ∷ ("mcp-collection", "mcp-server")
    ∷ ("mcp-marketplace", "mcp-server")
    ∷ ("mcp-registry", "mcp-server")
    ∷ ("agent-skill", "skill-pack")
    ∷ ("agent-skills", "skill-pack")
    ∷ ("claude-skill", "skill-pack")
    ∷ ("claude-skills", "skill-pack")
    ∷ ("claude-plugin", "skill-pack")
    ∷ ("codex-plugin", "skill-pack")
    ∷ ("openclaw-skill", "skill-pack")
    ∷ ("openclaw-plugin", "skill-pack")
    ∷ ("openclaw-skills", "skill-pack")
    ∷ ("frontend", "frontend")
    ∷ []

abbrev pub industrial_topics : List String
industrial_topics =
    "autonomous-vehicle" ∷ "autonomous-vehicles" ∷ "autonomous-driving" ∷ "self-driving" ∷ "tesla"
    ∷ "fsd" ∷ "robotics" ∷ "robot-control" ∷ "design-by-contract" ∷ "verification"
    ∷ "static-analysis" ∷ "contract-review" ∷ "threat-modeling" ∷ "interview" ∷ "interview-prep"
    ∷ "java" ∷ "kotlin" ∷ "notes-vault" ∷ "spec-driven-development" ∷ "china-equity"
    ∷ "china-stocks" ∷ "chinese-stocks" ∷ "parquet" ∷ "data-lake" ∷ "duckdb" ∷ []
