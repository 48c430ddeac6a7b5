-- ===== src/Context/Tables.antt =====
-- The tables of hive-server-go/model_context.go: the context windows of known models, and the patterns
-- that are looked for in the names of other models.
use ollama_local_hives_clust.Prelude.{ℕ, String, List, [], ◌∷◌, ◌++◌}

-- `knownContextWindows`, up to mistral:7b
abbrev pub known_first : List (String × ℕ)
known_first =
    ("qwen2.5-coder:0.5b", 32768)
    ∷ ("qwen2.5-coder:1.5b", 32768)
    ∷ ("qwen2.5-coder:3b", 32768)
    ∷ ("qwen2.5-coder:7b", 32768)
    ∷ ("qwen2.5-coder:14b", 131072)
    ∷ ("qwen2.5-coder:32b", 131072)
    ∷ ("qwen2.5-coder:72b", 131072)
    ∷ ("qwen2.5:0.5b", 32768)
    ∷ ("qwen2.5:1.5b", 32768)
    ∷ ("qwen2.5:3b", 32768)
    ∷ ("qwen2.5:7b", 131072)
    ∷ ("qwen2.5:14b", 131072)
    ∷ ("qwen2.5:32b", 131072)
    ∷ ("qwen2.5:72b", 131072)
    ∷ ("qwen3:0.6b", 32768)
    ∷ ("qwen3:1.7b", 32768)
    ∷ ("qwen3:4b", 32768)
    ∷ ("qwen3:8b", 32768)
    ∷ ("qwen3:14b", 131072)
    ∷ ("qwen3:30b", 131072)
    ∷ ("qwen3:32b", 131072)
    ∷ ("qwen3:235b", 131072)
    ∷ ("qwen3-coder:0.6b", 32768)
    ∷ ("qwen3-coder:1.7b", 32768)
    ∷ ("qwen3-coder:4b", 32768)
    ∷ ("qwen3-coder:8b", 32768)
    ∷ ("qwen3-coder:14b", 131072)
    ∷ ("qwen3-coder:30b", 131072)
    ∷ ("qwen3-coder:32b", 131072)
    ∷ ("qwen3-coder:235b", 131072)
    ∷ ("deepseek-coder:1.3b", 16384)
    ∷ ("deepseek-coder:6.7b", 16384)
    ∷ ("deepseek-coder:33b", 16384)
    ∷ ("deepseek-coder-v2:16b", 128000)
    ∷ ("deepseek-coder-v2:236b", 128000)
    ∷ ("deepseek-v2:16b", 128000)
    ∷ ("deepseek-v2:236b", 128000)
    ∷ ("deepseek-v3", 128000)
    ∷ ("deepseek-r1:1.5b", 65536)
    ∷ ("deepseek-r1:7b", 65536)
    ∷ ("deepseek-r1:8b", 65536)
    ∷ ("deepseek-r1:14b", 65536)
    ∷ ("deepseek-r1:32b", 65536)
    ∷ ("deepseek-r1:70b", 65536)
    ∷ ("codellama:7b", 16384)
    ∷ ("codellama:13b", 16384)
    ∷ ("codellama:34b", 16384)
    ∷ ("codellama:70b", 16384)
    ∷ ("codellama:7b-code", 16384)
    ∷ ("codellama:13b-code", 16384)
    ∷ ("codellama:34b-code", 16384)
    ∷ ("starcoder2:3b", 16384)
    ∷ ("starcoder2:7b", 16384)
    ∷ ("starcoder2:15b", 16384)
    ∷ ("llama3:8b", 8192)
    ∷ ("llama3:70b", 8192)
    ∷ ("llama3.1:8b", 131072)
    ∷ ("llama3.1:70b", 131072)
    ∷ ("llama3.1:405b", 131072)
    ∷ ("llama3.2:1b", 131072)
    ∷ ("llama3.2:3b", 131072)
    ∷ ("llama3.3:70b", 131072)
    ∷ ("mistral:7b", 32768)
    ∷ []

-- the rest of `knownContextWindows`
abbrev pub known_second : List (String × ℕ)
known_second =
    ("mistral-nemo:12b", 131072)
    ∷ ("mixtral:8x7b", 32768)
    ∷ ("mixtral:8x22b", 65536)
    ∷ ("gemma2:2b", 8192)
    ∷ ("gemma2:9b", 8192)
    ∷ ("gemma2:27b", 8192)
    ∷ ("gemma3:1b", 131072)
    ∷ ("gemma3:4b", 131072)
    ∷ ("gemma3:12b", 131072)
    ∷ ("gemma3:27b", 131072)
    ∷ ("phi3:3.8b", 131072)
    ∷ ("phi3:14b", 131072)
    ∷ ("phi4:14b", 16384)
    ∷ ("yi:6b", 204800)
    ∷ ("yi:9b", 204800)
    ∷ ("yi:34b", 204800)
    ∷ ("yi-coder:1.5b", 4096)
    ∷ ("yi-coder:6b", 204800)
    ∷ ("yi-coder:9b", 204800)
    ∷ ("yi-coder:34b", 204800)
    ∷ ("glm-4", 131072)
    ∷ ("glm-4-flash", 131072)
    ∷ ("glm-4.7-flash", 200000)
    ∷ ("glm-4.7-flash:bf16", 200000)
    ∷ ("glm-4.7-flash:q4_0", 200000)
    ∷ ("glm-4.7-flash:q8_0", 200000)
    ∷ ("glm-4-plus", 131072)
    ∷ ("glm-4-air", 131072)
    ∷ ("glm-4-airx", 131072)
    ∷ ("glm-4-long", 1048576)
    ∷ ("glm-4v", 8192)
    ∷ ("glm-4v-flash", 8192)
    ∷ ("glm-4v-plus", 8192)
    ∷ ("command-r:35b", 131072)
    ∷ ("command-r-plus:104b", 131072)
    ∷ ("codegemma:2b", 8192)
    ∷ ("codegemma:7b", 8192)
    ∷ ("codeqwen:7b", 32768)
    ∷ ("magicoder:7b", 8192)
    ∷ ("neural-chat:7b", 8192)
    ∷ ("openhermes:7b", 8192)
    ∷ ("nous-hermes:7b", 8192)
    ∷ ("nous-hermes:13b", 8192)
    ∷ ("nous-hermes2:7b", 8192)
    ∷ ("nous-hermes2-mixtral:8x7b", 32768)
    ∷ ("nous-hermes2-yi:34b", 204800)
    ∷ ("hermes-2-pro:7b", 4096)
    ∷ ("hermes-2-pro:13b", 4096)
    ∷ ("hermes-2-pro:70b", 4096)
    ∷ ("openchat:7b", 8192)
    ∷ ("zephyr:7b", 8192)
    ∷ ("vicuna:7b", 4096)
    ∷ ("vicuna:13b", 4096)
    ∷ ("vicuna:33b", 4096)
    ∷ ("wizard-coder:7b", 8192)
    ∷ ("wizard-coder:13b", 8192)
    ∷ ("wizard-coder:34b", 8192)
    ∷ ("wizard-coder:33b", 8192)
    ∷ ("wizard-coder-python:7b", 8192)
    ∷ ("mlx-community/Qwen2.5-Coder-7B-Instruct-4bit", 32768)
    ∷ ("mlx-community/Qwen2.5-Coder-14B-Instruct-4bit", 131072)
    ∷ ("mlx-community/DeepSeek-Coder-V2-Instruct-16B", 128000)
    ∷ ("mlx-community/Llama-3.1-8B-Instruct", 131072)
    ∷ ("mlx-community/Mistral-7B-Instruct-v0.3", 32768)
    ∷ []

abbrev pub known_context_windows : List (String × ℕ)
known_context_windows = known_first ++ known_second

-- `contextPatterns`
abbrev pub context_patterns : List (String × ℕ)
context_patterns =
    ("qwen2.5-coder", 32768)
    ∷ ("qwen2.5", 131072)
    ∷ ("qwen3-coder", 32768)
    ∷ ("qwen3", 131072)
    ∷ ("qwen-coder", 32768)
    ∷ ("qwen", 32768)
    ∷ ("deepseek-coder-v2", 128000)
    ∷ ("deepseek-coder", 16384)
    ∷ ("deepseek-r1", 65536)
    ∷ ("deepseek", 128000)
    ∷ ("codellama", 16384)
    ∷ ("codegemma", 8192)
    ∷ ("codeqwen", 32768)
    ∷ ("magicoder", 8192)
    ∷ ("starcoder2", 16384)
    ∷ ("starcoder", 16384)
    ∷ ("llama3.1", 131072)
    ∷ ("llama3.2", 131072)
    ∷ ("llama3.3", 131072)
    ∷ ("llama3", 8192)
    ∷ ("mistral-nemo", 131072)
    ∷ ("mistral", 32768)
    ∷ ("mixtral", 32768)
    ∷ ("gemma3", 131072)
    ∷ ("gemma2", 8192)
    ∷ ("gemma", 8192)
    ∷ ("phi-4", 16384)
    ∷ ("phi4", 16384)
    ∷ ("phi-3", 131072)
    ∷ ("phi3", 131072)
    ∷ ("yi-coder", 204800)
    ∷ ("yi", 204800)
    ∷ ("hermes-2", 32768)
    ∷ ("hermes", 8192)
    ∷ ("command-r", 131072)
    ∷ ("glm-4.7", 200000)
    ∷ ("glm-4", 131072)
    ∷ ("glm", 131072)
    ∷ ("openchat", 8192)
    ∷ ("zephyr", 8192)
    ∷ ("vicuna", 4096)
    ∷ ("wizard-coder", 8192)
    ∷ ("wizard", 8192)
    ∷ ("neural-chat", 8192)
    ∷ ("openhermes", 8192)
    ∷ ("mlx", 32768)
    ∷ []
