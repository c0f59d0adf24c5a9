-- ===== src/Demo/Canned.antt =====
-- .demo/fake-sidecar/fixtures.go: the fixed data of the demo.
use differ_nvim.Common.{String, List, [], ◌∷◌}
use differ_nvim.Github.Files.{◌·◌}

abbrev pub base_sha : String
base_sha = "a1b2c3d4e5f60718293a4b5c6d7e8f9011223344"

abbrev pub head_sha : String
head_sha = "44332211109f8e7d6c5b4a3a29180716f6e5d4c3"

abbrev pub pr_url : String
pr_url = "https://github.com/acme/widgets/pull/42"

abbrev pub author : String
author = "monalisa"

abbrev pub viewer : String
viewer = "you"

abbrev pub other : String
other = "octocat"

unfoldable pub base_blobs : List (String × String)
base_blobs =
    (
      "lua/theme.lua",
      "local M = {}\n\nM.theme = \"monokai\"\nM.context = 10\n\nfunction M.setup()\n"
          · "  return M.theme\nend\n\nreturn M\n",
    )
    ∷ (
      "lua/palette.lua",
      "local M = {}\n\nM.colours = {\n  red = \"#ff5555\",\n  green = \"#50fa7b\",\n"
          · "}\n\nreturn M\n",
    )
    ∷ (
      "lua/monokai.lua",
      "local M = {}\n\nM.name = \"monokai\"\nM.bg = \"#272822\"\nM.fg = \"#f8f8f2\"\n"
          · "M.comment = \"#75715e\"\n\nreturn M\n",
    )
    ∷ []

unfoldable pub head_blobs : List (String × String)
head_blobs =
    (
      "lua/theme.lua",
      "local M = {}\n\nM.theme = \"dracula\"\nM.context = 20\n"
          · "M.accent = \"#bd93f9\"\n\nfunction M.setup()\n"
          · "  M.theme = M.theme or \"dracula\"\n  return M.theme\nend\n\nreturn M\n",
    )
    ∷ (
      "lua/palette.lua",
      "local M = {}\n\nM.colours = {\n  red = \"#ff5555\",\n  green = \"#50fa7b\",\n"
          · "  purple = \"#bd93f9\",\n}\n\nreturn M\n",
    )
    ∷ (
      "lua/dracula.lua",
      "local M = {}\n\nM.name = \"dracula\"\nM.bg = \"#282a36\"\nM.fg = \"#f8f8f2\"\n"
          · "M.comment = \"#6272a4\"\n\nreturn M\n",
    )
    ∷ []
