-- ===== src/Process/Wait/Reap.antt =====
-- `waitpid` after the `_exit` of the process it waits for, and before it.
