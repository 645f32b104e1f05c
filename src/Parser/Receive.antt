-- ===== src/Parser/Receive.antt =====
-- A node that loudmouth/lm-message-node.c writes, fed to loudmouth/lm-parser.c.
use loudmouth.Node.{Node}
use loudmouth.Message.{Message}
