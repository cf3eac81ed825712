-- ===== src/Queue/Policy/Tests.antt =====
-- Tests of the operator's switch: src/config/dispatch-policy.ts.
