-- ===== src/Clients/Lost.antt =====
-- What submitJob of hive-server-go/handlers.go does with a full job queue.
