-- ===== src/Corpus/Patterns/Runtime.antt =====
-- The categories of src/compliance/corpus/classifier.py and the signals of an agent's runtime.
use reguard.Prelude.{String, Bool, str_eq, List, [], ◌∷◌}

pub data AgentCategory : Type 0 where
  coding_agent general_agent agent_framework multi_agent browser_agent : AgentCategory
  computer_use_agent workflow_agent tool_using_agent other_agent not_agent unknown : AgentCategory

unfoldable pub category_name : AgentCategory → String
category_name coding_agent = "coding_agent"
category_name general_agent = "general_agent"
category_name agent_framework = "agent_framework"
category_name multi_agent = "multi_agent"
category_name browser_agent = "browser_agent"
category_name computer_use_agent = "computer_use_agent"
category_name workflow_agent = "workflow_agent"
category_name tool_using_agent = "tool_using_agent"
category_name other_agent = "other_agent"
category_name not_agent = "not_agent"
category_name unknown = "unknown"

-- The categories are texts in the source.
unfoldable pub category_eq : AgentCategory → AgentCategory → Bool
unfolding category_name
category_eq c d = str_eq (category_name c) (category_name d)

abbrev pub agent_runtime_topics : List String
agent_runtime_topics =
    "agent" ∷ "agents" ∷ "agentic" ∷ "agentic-ai" ∷ "agentic-workflow" ∷ "agent-runtime"
    ∷ "agent-framework" ∷ "agent-platform" ∷ "ai-agent" ∷ "ai-agents" ∷ "ai-agent-framework"
    ∷ "autonomous-agent" ∷ "autonomous-agents" ∷ "multi-agent" ∷ "multi-agent-system"
    ∷ "multi-agent-systems" ∷ "llm-agent" ∷ "llm-agents" ∷ "llm-agent-framework"
    ∷ "conversational-ai-agent" ∷ "task-automation" ∷ "ai-automation" ∷ []

abbrev pub category_rules : List (String × AgentCategory)
category_rules =
    (
      "\\bcoding[-_ ]?agent\\b|\\bswe[-_ ]?agent\\b|\\bcode[-_ ]?agent\\b|\\bcode[-_ ]?generation\\b|\\bcode[-_ ]?interpreter\\b|\\bgenerate\\b.*\\bcode\\b|\\b(build|creates?|generates?)\\b.*\\b(code|app|software|project|repo)\\b",
      coding_agent,
    )
    ∷ (
      "\\bbrowser[-_ ]?agent\\b|\\bbrowser[-_ ]?use\\b|\\bweb[-_ ]?agent\\b|\\bbrowser[-_ ]?automation\\b|\\bweb[-_ ]?automation\\b",
      browser_agent,
    )
    ∷ (
      "\\bcomputer[-_ ]?use\\b|\\bdesktop[-_ ]?agent\\b|\\bcomputer[-_ ]?agent\\b|\\bgui[-_ ]?agent\\b|\\bscreen[-_ ]?automation\\b",
      computer_use_agent,
    )
    ∷ ("\\bmulti[-_ ]?agent\\b|\\bswarm\\b|\\bcrew\\b|\\bagentic[-_ ]?team\\b", multi_agent)
    ∷ ("\\bworkflow\\b|\\borchestrat|\\bpipeline\\b", workflow_agent)
    ∷ (
      "\\btool[-_ ]?use\\b|\\btool[-_ ]?calling\\b|\\bfunction[-_ ]?calling\\b|\\bmcp\\b(?![- ]server)|\\bplugin\\b|\\brag\\b|\\bretrieval[-_ ]?augmented\\b",
      tool_using_agent,
    )
    ∷ (
      "\\bagent[-_ ]?framework\\b|\\bagent[-_ ]?runtime\\b|\\bagent[-_ ]?sdk\\b|\\bagent[-_ ]?platform\\b|\\bllm[-_ ]?framework\\b",
      agent_framework,
    )
    ∷ ("\\bautonomous\\b|\\bauto[-_ ]?gpt\\b|\\bfull[y]?[-_ ]?autonomous\\b", general_agent)
    ∷ []

abbrev pub domain_topic_to_category : List (String × AgentCategory)
domain_topic_to_category =
    ("code-generation", coding_agent)
    ∷ ("code-interpreter", coding_agent)
    ∷ ("code-review", coding_agent)
    ∷ ("ppt", workflow_agent)
    ∷ ("pptx", workflow_agent)
    ∷ ("powerpoint", workflow_agent)
    ∷ ("presentation", workflow_agent)
    ∷ ("video-generation", workflow_agent)
    ∷ ("ai-video", workflow_agent)
    ∷ ("deep-research", workflow_agent)
    ∷ ("data-analysis", workflow_agent)
    ∷ ("automation", workflow_agent)
    ∷ ("tutor", general_agent)
    ∷ ("ai-tutor", general_agent)
    ∷ ("education", general_agent)
    ∷ ("personal-ai", general_agent)
    ∷ ("fintech", tool_using_agent)
    ∷ ("investment", tool_using_agent)
    ∷ ("stock-analysis", tool_using_agent)
    ∷ ("trading", tool_using_agent)
    ∷ ("browser-automation", browser_agent)
    ∷ ("computer-vision", computer_use_agent)
    ∷ []

abbrev pub generic_agent_desc_hints : List String
generic_agent_desc_hints =
    "\\bai[-_ ]?agent\\b" ∷ "\\bautonomous[-_ ]?agent\\b" ∷ "\\bcoding[-_ ]?agent\\b"
    ∷ "\\bbrowser[-_ ]?agent\\b" ∷ "\\bagent[-_ ]?framework\\b" ∷ "\\bagent[-_ ]?runtime\\b"
    ∷ "\\bagentic\\b" ∷ "\\btool[-_ ]?use\\b|\\btool[-_ ]?calling\\b"
    ∷ "\\bfunction[-_ ]?calling\\b" ∷ "\\bautonomous\\b"
    ∷ "\\bllm[-_ ]?powered\\b|\\bllm[-_ ]?driven\\b" ∷ "\\bchat[-_ ]?agent\\b|\\btask[-_ ]?agent\\b"
    ∷ []

abbrev pub category_priority : List AgentCategory
category_priority =
    coding_agent ∷ browser_agent ∷ computer_use_agent ∷ multi_agent ∷ tool_using_agent
    ∷ workflow_agent ∷ agent_framework ∷ general_agent ∷ other_agent ∷ []
