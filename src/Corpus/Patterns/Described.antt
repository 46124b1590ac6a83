-- ===== src/Corpus/Patterns/Described.antt =====
-- The descriptions that src/compliance/corpus/classifier.py excludes; a pattern is searched with `re.I`.
use reguard.Prelude.{String, List, [], ◌∷◌}

abbrev pub paper_desc_patterns : List String
paper_desc_patterns =
    "\\b(iclr|icml|neurips|cvpr|aaai|emnlp|acl|naacl|ijcai)\\s*['’]?\\s*\\d{2,4}\\b"
    ∷ "\\bofficial code implementation\\b" ∷ "\\bofficial implementation\\b"
    ∷ "\\bimplementation of (the|our)\\b.{0,40}\\bpaper\\b" ∷ "\\bcode for paper\\b"
    ∷ "\\barxiv[: ]" ∷ []

abbrev pub skill_pack_desc_patterns : List String
skill_pack_desc_patterns =
    "\\bclaude code skill\\b" ∷ "\\bclaude[-_ ]code plugin\\b" ∷ "\\bplugin for claude code\\b"
    ∷ "\\bskill for (claude code|codex|cursor|opencode)\\b"
    ∷ "\\bruns? on (claude code|codex|cursor|opencode)\\b"
    ∷ "\\bcopy[-_ ]?paste\\b.{0,40}\\b(hooks?|recipes?|snippets?|config)\\b"
    ∷ "^\\s*\\d{2,4}\\b.*\\b(structured\\s+)?(skills?|capabilities?|services?)\\b\\s+for\\b"
    ∷ "\\blibrary of\\b.{0,40}\\b(skills?|tools?|integrations?)\\b"
    ∷ "\\bgive\\b.{0,30}\\b(your )?ai[-_ ]?agents?\\b.{0,40}\\b(eyes|capabilit|ability|power)"
    ∷ "\\b(skill|plugin)[-_ ]?(pack|hub|set)\\b" ∷ []

abbrev pub mcp_server_desc_patterns : List String
mcp_server_desc_patterns =
    "^mcp server (for|that|which|to)\\b" ∷ "\\bmcp server (for|that|which|to)\\b"
    ∷ "\\bmcp servers? for the\\b" ∷ "^\\s*give ai (assistants|agents)\\s+.{0,40}\\bsuperpowers\\b"
    ∷ "\\bmcp gateway\\b|\\bmcp registry\\b|\\bmcp control plane\\b" ∷ []

abbrev pub frontend_desc_patterns : List String
frontend_desc_patterns =
    "\\bgradio\\b" ∷ "\\bstreamlit\\b" ∷ "\\bfrontend for\\b"
    ∷ "\\bbest way to use\\b.{0,30}\\bfrom the web\\b" ∷ []

abbrev pub memory_layer_desc_patterns : List String
memory_layer_desc_patterns =
    "\\bmemory[-_ ]?(layer|subsystem|store|backend|substrate)\\b"
    ∷ "\\bmemory[-_ ]?plus\\b|\\bmemov?\\b"
    ∷ "\\brecall|reflect|retrieval[-_ ]?augmented\\b.{0,30}\\b(agent memory|memory)\\b"
    ∷ "\\bagent memory\\b"
    ∷ "\\b(consolidat|consolidate|consolidating)\\b.{0,30}\\b(memory|knowledge)\\b" ∷ []

abbrev pub toolset_desc_patterns : List String
toolset_desc_patterns =
    "\\btoolset\\b" ∷ "\\bplugin(s)? for\\b" ∷ "\\bextension(s)?\\b" ∷ "\\bdelegates? to\\b"
    ∷ "\\bskill(s)? (pack|set|suite|collection|catalog)\\b" ∷ "\\bcli and skills\\b"
    ∷ "\\b(tool|command)[-_ ]?(call|use)[-_ ]?(hub|tool|integration)\\b"
    ∷ "\\bcli that\\b.{0,30}\\b(reads? the|parses?)\\b"
    ∷ "\\bupload\\b.{0,20}\\b(contract|file|document|pdf)\\b.{0,30}\\b(get|red[-_ ]flags?|explanations?)\\b"
    ∷ "\\bsqueeze\\b.{0,40}\\boutput\\b" ∷ "\\bpruning\\b.{0,40}\\boutput\\b|\\boutput.{0,40}prun"
    ∷ "\\bbest way to use\\b.{0,40}\\bagent\\b"
    ∷ "\\brun\\b.{0,30}\\bon the same\\b.{0,15}\\b(account|channel|number)\\b"
    ∷ "\\brun\\b.{0,20}\\bcloud\\b.{0,20}\\bcoding agents?\\b"
    ∷ "\\b(spec[-_ ]?driven|workflow)\\b.{0,30}\\b(skills?|artifacts?)\\b" ∷ []

abbrev pub observability_desc_patterns : List String
observability_desc_patterns =
    "\\b(intercept(ing)?|trace(ing)?|inspect)\\b.{0,30}\\b(api traffic|coding agent|llm traffic)\\b"
    ∷ "\\btrace[-_ ]?viewer\\b"
    ∷ "\\bcli for\\b.{0,40}\\b(static analysis|threat modeling|threat model)\\b.{0,40}\\b(of )?(other )?agents?\\b"
    ∷ "\\bguardrail(s|enforce|enforcement)?\\b.{0,30}\\b(llm traffic|llm gateway|llm proxy)\\b"
    ∷ "\\b(remote terminal|sandbox rest)\\b.{0,30}\\bfor agents\\b"
    ∷ "\\bmake your agents (follow|comply)\\b"
    ∷ "\\b(reliability|safety|compliance|policy)[-_ ]?(harness|enforcement)\\b"
    ∷ "\\bai (firewall|governance|policy|audit)\\b" ∷ "\\bai[-_ ]?kit ?kit\\b|\\bai toolkit\\b" ∷ []

abbrev pub rl_desc_patterns : List String
rl_desc_patterns =
    "\\bopenai gym\\b"
    ∷ "\\breinforcement[-_ ]?learning\\b.{0,40}\\b(simulator|environment|reset|step)\\b"
    ∷ "\\bself[-_ ]?organizing recurrent\\b" ∷ "\\bneuro[-_ ]?robotics\\b" ∷ []

abbrev pub non_llm_agent_desc_patterns : List String
non_llm_agent_desc_patterns =
    "\\breinforcement[-_ ]?learning\\b" ∷ "\\bspiking[-_ ]?neural\\b" ∷ "\\bself[-_ ]?play\\b"
    ∷ "\\bmulti[-_ ]?agent\\b.{0,40}\\b(simulator|simulation|racing|game|environment)\\b" ∷ []

abbrev pub educational_desc_patterns : List (String × String)
educational_desc_patterns =
    (
      "\\bstep[-_ ]?by[-_ ]?step\\b.{0,30}\\b(guide|tutorial|walkthrough|build)\\b",
      "step-by-step guide",
    )
    ∷ ("\\blearning[-_ ]?path\\b", "learning path")
    ∷ ("\\b(stanford|cs\\d{3,4}[a-z]?)\\b.{0,30}\\bcourse\\b", "stanford course")
    ∷ (
      "\\bopen[-_ ]?source book\\b.{0,40}\\b(experimental|example|accompanying)\\b",
      "book with code",
    )
    ∷ ("\\bnotes vault\\b|\\bnotes\\b.{0,40}\\bcovering\\b", "notes vault")
    ∷ ("\\bcurated list\\b|\\breading list\\b|\\b\\d{2,4}\\+?\\s+resources\\b", "curated list")
    ∷ ("\\bknowledge[-_ ]?base\\b.{0,30}\\b(adapted|from)\\b", "knowledge base")
    ∷ ("\\bresources,? practice and research\\b", "resources/practice/research")
    ∷ ("\\b\\d{2,4}K LOC\\b", "XXXK LOC reference")
    ∷ ("\\breverse[-_ ]?engineering\\b", "reverse engineering")
    ∷ []

abbrev pub platform_desc_patterns : List (String × String)
platform_desc_patterns =
    ("\\b\\d{2,4}\\+?\\s+integrations?\\b", "integrations marketplace")
    ∷ ("\\btool[-_ ]?calling platform\\b", "tool-calling platform")
    ∷ ("\\bmarketplace client\\b|\\bpublishing agents to\\b", "marketplace")
    ∷ ("\\bdeployment sdk\\b", "deployment SDK")
    ∷ (
      "\\bdeploy your\\b.{0,40}\\bagents?\\b.{0,40}\\b(production|cloud|uptime|environment)\\b",
      "deploy agents",
    )
    ∷ ("\\brest/openapi specification\\b", "protocol spec")
    ∷ ("\\b(common interface|tech stack agnostic|protocol)\\b", "protocol spec")
    ∷ (
      "^\\s*examples?\\s+repository\\b|\\bexamples? of\\b.{0,60}\\bcan be built\\b",
      "examples only",
    )
    ∷ []
