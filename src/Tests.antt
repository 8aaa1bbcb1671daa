-- ===== src/Tests.antt =====
-- Runs of the model at fixed inputs, and the theorems at inputs that meet their hypotheses.
mod CacheRuns
mod CacheSamples
mod CacheExamples
mod TaggedpointerExamples
mod RetainExamples
mod ListExamples
mod QueueExamples
mod ClasssearchExamples
mod SignatureExamples
mod LoadExamples
